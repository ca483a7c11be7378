-- ===== src/DecryptWithSecrets.antt =====
-- decrypt_with_secrets.py: the decryption of ballots by whoever knows the secret key or the nonces.
-- A call takes the cache of the discrete logarithm and returns it with its result, which is None
-- where it logs a warning. `fuel` bounds the rounds of each search for a logarithm.
pub mod Actions
pub mod Secret
pub mod Nonce
pub mod Selections
pub mod RoundTrip
pub mod Opened
pub mod Contest
