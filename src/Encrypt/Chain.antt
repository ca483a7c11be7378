-- ===== src/Encrypt/Chain.antt =====
-- The ballots that a device encrypts form a chain of tracking hashes (encrypt.py).
use electionguard_python.Prelude.{
  ℕ, ◌≡◌, ◌≢◌, refl, subst, Bool, true, Option, none, some, List, [], ◌∷◌, arith,
}
use electionguard_python.Prelude.Int.{ℤ}
use electionguard_python.Prelude.Result.{Result, ok, raise}
use electionguard_python.External.{Gmp, Sha256}
use electionguard_python.Group.{ElementModQ}
use electionguard_python.Election.Internal.{InternalElectionDescription, CiphertextElectionContext}
use electionguard_python.Ballot.Plaintext.{PlaintextBallot}
use electionguard_python.Ballot.Ciphertext.{CiphertextBallot, make_ciphertext_ballot}
use electionguard_python.Encrypt.Valid.{some_of_ne_none}
use electionguard_python.Encrypt.Ballots.{
  verified_ballot, encrypt_ballot, EncryptionMediator, after_encrypt, encrypt,
}

-- A ballot with its tracking hash that follows a hash.
abbrev pub Follows : ElementModQ → CiphertextBallot → ElementModQ → Type 0
Follows h b t = (b.previous_tracking_hash ≡ h) × (b.tracking_hash ≡ some t)

module _ (gmp : Gmp) (sha256 : Sha256) where
  encrypt_ballot-linked :
      (now : ℤ) (drawn : ℕ) (ballot : PlaintextBallot) (metadata : InternalElectionDescription)
      (context : CiphertextElectionContext) (seed_hash : ElementModQ) (given : Option ElementModQ)
      (verify : Bool) (b : CiphertextBallot)
      → encrypt_ballot gmp sha256 now drawn ballot metadata context seed_hash given verify
        ≡ ok (some b)
      → (b.previous_tracking_hash ≡ seed_hash) × (b.tracking_hash ≢ none)
  unfolding encrypt_ballot verified_ballot make_ciphertext_ballot
  encrypt_ballot-linked now drawn ballot metadata context seed_hash given verify b h = ground arith

-- A call of the mediator: what the clock says, what is drawn, and the ballot.
pub record Call : Type 0 where
  pub now : ℤ
  pub drawn : ℕ
  pub ballot : PlaintextBallot

-- The ballots that a mediator encrypts in a row of calls, and the mediator after them. A call that
-- returns none or raises adds no ballot.
abbrev pub encrypted :
    Result (Option CiphertextBallot) → List CiphertextBallot → List CiphertextBallot
encrypted (ok (some b)) ballots = b ∷ ballots
encrypted (ok none) ballots = ballots
encrypted (raise e) ballots = ballots

unfoldable pub encrypt_all :
    Gmp → Sha256 → List Call → EncryptionMediator → List CiphertextBallot × EncryptionMediator
encrypt_all gmp sha256 [] m = ([], m)
encrypt_all gmp sha256 (c ∷ calls) m =
    let (result, m') = encrypt gmp sha256 c.now c.drawn c.ballot m in
    let (ballots, end) = encrypt_all gmp sha256 calls m' in (encrypted result ballots, end)

-- Each ballot's previous tracking hash is the tracking hash of the ballot before it. The first one's is
-- the first hash, and the last one's tracking hash is the last.
abbrev pub IsChain : ElementModQ → List CiphertextBallot → ElementModQ → Type 0
IsChain h [] last = h ≡ last
IsChain h (b ∷ ballots) last =
    (t : ElementModQ) × (b.previous_tracking_hash ≡ h)
    × (b.tracking_hash ≡ some t)
    × IsChain t ballots last

after_encrypt-seed_hash :
    (m : EncryptionMediator) (b : CiphertextBallot) {t : ElementModQ}
    → b.tracking_hash ≡ some t
    → (after_encrypt m (ok (some b))).seed_hash ≡ t
unfolding after_encrypt
after_encrypt-seed_hash m b h = ground (arith, h)

module _ (gmp : Gmp) (sha256 : Sha256) where
  -- A call adds its ballot, if it returned one, to the front of the chain that follows.
  encrypted-IsChain :
      (c : Call) (m : EncryptionMediator) (ballots : List CiphertextBallot) (last : ElementModQ)
      → let (result, m') = encrypt gmp sha256 c.now c.drawn c.ballot m in
        IsChain m'.seed_hash ballots last → IsChain m.seed_hash (encrypted result ballots) last
  unfolding encrypt after_encrypt
  encrypted-IsChain c m ballots last =
      go
        (encrypt_ballot gmp sha256 c.now c.drawn c.ballot m.metadata m.encryption m.seed_hash none
          true)
        refl
    where
      go :
          (result : Result (Option CiphertextBallot))
          → encrypt_ballot gmp sha256 c.now c.drawn c.ballot m.metadata m.encryption m.seed_hash
              none true
            ≡ result
          → IsChain (after_encrypt m result).seed_hash ballots last
          → IsChain m.seed_hash (encrypted result ballots) last
      go (raise e) h chain = chain
      go (ok none) h chain = chain
      go (ok (some b)) h chain =
          let (previous, tracked) =
            encrypt_ballot-linked gmp sha256 c.now c.drawn c.ballot m.metadata m.encryption
              m.seed_hash none true b h in
          let (t, e) = some_of_ne_none b.tracking_hash tracked in
          (
            t,
            previous,
            e,
            subst (λ u. IsChain u ballots last) (after_encrypt-seed_hash m b e) chain,
          )

  -- Whatever calls of a mediator's encrypt follow one another, the ballots that they return form a
  -- chain: each one's previous tracking hash is the tracking hash of the ballot returned before it, the
  -- first one's is the mediator's seed hash before the calls, and the last tracking hash is its seed
  -- hash after them. Calls that return none or raise leave the chain as it is.
  pub encrypt_all-IsChain :
      (calls : List Call) (m : EncryptionMediator)
      → let (ballots, end) = encrypt_all gmp sha256 calls m in
        IsChain m.seed_hash ballots end.seed_hash
  unfolding encrypt_all
  encrypt_all-IsChain [] m = refl
  encrypt_all-IsChain (c ∷ calls) m =
      let m' = (encrypt gmp sha256 c.now c.drawn c.ballot m).1 in
      let (ballots, end) = encrypt_all gmp sha256 calls m' in
      encrypted-IsChain c m ballots end.seed_hash (encrypt_all-IsChain calls m')
