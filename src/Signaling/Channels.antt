-- ===== src/Signaling/Channels.antt =====
-- What the server uses of tokio's `mpsc::UnboundedSender`. The crate is not part of the repository:
-- senders are a parameter, with the documented meaning of `same_channel`. A clone of a sender is the
-- sender itself here.
use couchlink.Base.{ℕ, ◌≡◌, ◌==◌, Bool, true, arith}

pub record Channels : Type 1 where
  pub Sender : Type 0
  pub same_channel : Sender → Sender → Bool
  -- `same_channel` says whether two senders belong to one channel, so it is an equivalence.
  pub same_refl : (s : Sender) → same_channel s s ≡ true
  pub same_sym : (s t : Sender) → same_channel s t ≡ same_channel t s
  pub same_trans :
      (s t u : Sender) → same_channel s t ≡ true → same_channel t u ≡ true → same_channel s u ≡ true

pub numbers_sym : (s t : ℕ) → (s == t) ≡ (t == s)
numbers_sym s t = ground arith

pub numbers_trans : (s t u : ℕ) → (s == t) ≡ true → (t == u) ≡ true → (s == u) ≡ true
numbers_trans s t u p q = ground arith

pub numbers_refl : (s : ℕ) → (s == s) ≡ true
numbers_refl s = ground arith

-- Senders that are numbers, one for each channel.
abbrev pub numbered_channels : Channels
numbered_channels = record {
  Sender = ℕ;
  same_channel = ◌==◌;
  same_refl = numbers_refl;
  same_sym = numbers_sym;
  same_trans = numbers_trans;
}
