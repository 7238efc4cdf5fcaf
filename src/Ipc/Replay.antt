-- ===== src/Ipc/Replay.antt =====
-- What the guard of ipc/framing.cpp lets through.
use qiven_runtime.Base.{
  ℕ, ◌+◌, ◌≤◌, ◌<◌, ◌≡◌, ◌↔◌, ap, arith, true, false, ◌&&◌, List, [], ◌∷◌, ◌++◌, Bytes, length,
  length-append, leb, nat_beq, nat_beq_iff, contains, insert, if◌then◌else◌, nat_eq,
}
use qiven_runtime.Foundation.{Foundation}
use qiven_runtime.Ipc.Framing.{
  ReplayGuard, window_ms, nonce_cache, distance, hash_nonce, evicted, accept,
}

-- The time that the guard compares with.
abbrev reference_of : ReplayGuard → ℕ → ℕ
reference_of g now = if nat_beq g.wall_ms 0 then now else g.wall_ms

module _ (f : Foundation) where
  length-evicted :
      (recent : List Bytes) (nonce : Bytes) (seen : List ℕ)
      → length recent ≤ nonce_cache
      → length (evicted f (recent ++ nonce ∷ []) seen).0 ≤ nonce_cache
  length-evicted [] nonce seen h = ground arith
  length-evicted (r ∷ rs) nonce seen h = ground (arith, length-append rs (nonce ∷ []))

  module _ (seq : ℕ) (nonce : Bytes) (timestamp now : ℕ) (g : ReplayGuard) where
    -- A message is let through exactly if its number is above the last one, its time is within two
    -- minutes of the guard's clock, its nonce has 16 bytes, and no remembered nonce has its hash.
    pub accept_iff : ((accept f seq nonce timestamp now g).0 ≡ true) ↔ (
        (g.last_seq < seq)
        × (distance timestamp (reference_of g now) ≤ window_ms)
        × (length nonce ≡ 16)
        × (contains (hash_nonce f nonce) g.seen ≡ false))
    unfolding accept
    accept_iff = (
      λ h. (ground (arith, h), ground (arith, h), ground (arith, h), ground (arith, h)),
      λ h. ground (arith, h),
    )

    last_seq-accept :
        (accept f seq nonce timestamp now g).0 ≡ true
        → (accept f seq nonce timestamp now g).1.last_seq ≡ seq
    unfolding accept
    last_seq-accept h = ground (arith, h)

    refused_unchanged :
        (accept f seq nonce timestamp now g).0 ≡ false → (accept f seq nonce timestamp now g).1 ≡ g
    unfolding accept
    refused_unchanged h = ground (arith, h)

    pub recent-accept :
        length g.recent ≤ nonce_cache
        → length (accept f seq nonce timestamp now g).1.recent ≤ nonce_cache
    unfolding accept
    recent-accept h =
        ground (arith, length-evicted g.recent nonce (insert (hash_nonce f nonce) g.seen) h)

  -- A message: its number, nonce and time, and the time at which it comes.
  abbrev Message : Type 0
  Message = ℕ × Bytes × ℕ × ℕ

  -- How many of the messages, which come one after the other, are let through with the number.
  unfoldable pub acceptances : ReplayGuard → ℕ → List Message → ℕ
  acceptances g seq [] = 0
  acceptances g seq ((n, nonce, timestamp, now) ∷ rest) =
      let (passed, g') = accept f n nonce timestamp now g in
      (if nat_beq n seq && passed then 1 else 0) + acceptances g' seq rest

  above :
      (n : ℕ) (nonce : Bytes) (timestamp now : ℕ) (g : ReplayGuard)
      → (accept f n nonce timestamp now g).0 ≡ true
      → g.last_seq < n
  above n nonce timestamp now g h = ((accept_iff n nonce timestamp now g).0 h).0

  unmoved :
      (n : ℕ) (nonce : Bytes) (timestamp now : ℕ) (g : ReplayGuard)
      → (accept f n nonce timestamp now g).0 ≡ false
      → (accept f n nonce timestamp now g).1.last_seq ≡ g.last_seq
  unmoved n nonce timestamp now g h =
      ap (λ x. x.last_seq) (refused_unchanged n nonce timestamp now g h)

  -- Over any messages on a connection, at most one is let through with a given number, and none
  -- with a number up to the last one.
  pub acceptances_at_most_once :
      (g : ReplayGuard) (seq : ℕ) (messages : List Message)
      → acceptances g seq messages + (if leb seq g.last_seq then 1 else 0) ≤ 1
  unfolding acceptances
  acceptances_at_most_once g seq [] = ground arith
  acceptances_at_most_once g seq ((n, nonce, timestamp, now) ∷ rest) = ground (
    arith,
    above n nonce timestamp now g,
    unmoved n nonce timestamp now g,
    last_seq-accept n nonce timestamp now g,
    acceptances_at_most_once (accept f n nonce timestamp now g).1 seq rest,
    nat_beq_iff n seq,
  )
