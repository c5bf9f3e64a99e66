-- ===== src/Passkeys.antt =====
-- Passkeys: platform/src/passkeys/passkeys.service.ts. Passkeys/Tickets has the tokens that carry a
-- challenge, Passkeys/Service the methods; Passkeys/Ceremony reasons about them.
pub mod Tickets
pub mod Service
pub mod Ceremony
