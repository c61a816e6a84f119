-- ===== src/Storage/Broadcast/Valid.antt =====
-- What holds of a broadcaster at all times.
use grepod.Prelude.{ℕ, ◌≤◌, ◌<◌, ◌≡◌, true, false, length, contains, Distinct}
use grepod.Storage.Broadcast.{Broadcaster, subscriber_buffer_size}

-- The subscribed channels are distinct, open and known; a channel is closed exactly when its
-- subscription has ended; and no buffer is over its capacity.
pub record IsValid (b : Broadcaster) : Type 0 where
  pub distinct : Distinct b.subs
  pub open_subs : (ch : ℕ) → contains b.subs ch ≡ true → (b.chans ch).closed ≡ false
  pub known : (ch : ℕ) → contains b.subs ch ≡ true → ch < b.next
  pub once : (ch : ℕ) → (b.chans ch).closed ≡ (b.chans ch).released
  pub bounded : (ch : ℕ) → length (b.chans ch).buffer ≤ subscriber_buffer_size
