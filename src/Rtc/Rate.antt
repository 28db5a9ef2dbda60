-- ===== src/Rtc/Rate.antt =====
-- Which rates rtc_write accepts, and what it programs.
use linux_like_os.Base.{
  ℕ, suc, ◌-◌, ◌/◌, ◌%◌, ◌^◌, ◌<◌, ◌≡◌, ◌≢◌, ◌⊎◌, refl, ap, ltb, ◌==◌, ◌&&◌, ◌||◌, if◌then◌else◌,
  true, false, not, passes_below, passes_below_each, ==_iff, Option, none, some, List, [], ◌∷◌,
  ◌++◌, ℤ, pos, negsuc, minus_one, inl, inr, Bool, arith,
}
use native.Mathlib.Decide.{dec_lt}
use linux_like_os.Port.{Ports, Device, wrote, was_read}
use linux_like_os.Rtc.{
  scan_bits, rate_select, with_rate, rtc_write, rtc_read, select_read, status_reg_a,
}

-- The clock's rule: with rate selection `rs` it ticks 32768 / 2^(rs - 1) times a second.
abbrev pub frequency : ℕ → ℕ
frequency rs = 32768 / 2 ^ (rs - 1)

abbrev selects : ℕ → Option ℕ → Bool
selects rate none = not (
    (rate == 2)
    || (rate == 4)
    || (rate == 8)
    || (rate == 16)
    || (rate == 32)
    || (rate == 64)
    || (rate == 128)
    || (rate == 256)
    || (rate == 512)
    || (rate == 1024))
selects rate (some rs) = (frequency rs == rate) && (ltb 2 rs && ltb rs 16)

rate_table : passes_below 1025 (λ rate. selects rate (rate_select rate)) ≡ true
unfolding passes_below rate_select scan_bits
rate_table = refl

too_fast : (rate : ℕ) → 1024 < rate → rate_select rate ≡ none
unfolding rate_select
too_fast rate h = ground arith

picked : Option ℕ → ℕ → Bool
picked none rs = false
picked (some r) rs = r == rs

-- The ten accepted rates, 2 to 1024.
power_table : passes_below 10 (λ j. picked (rate_select (2 ^ suc j)) (15 - j)) ≡ true
unfolding passes_below rate_select scan_bits picked
power_table = refl

some_of_picked : (o : Option ℕ) (rs : ℕ) → picked o rs ≡ true → o ≡ some rs
unfolding picked
some_of_picked none rs h = cc
some_of_picked (some r) rs h = ground arith

rate_select-power : (j : ℕ) → j < 10 → rate_select (2 ^ suc j) ≡ some (15 - j)
rate_select-power j h = some_of_picked _ (15 - j) (passes_below_each 10 _ j power_table h)

none_of_selects :
    (rate : ℕ) (o : Option ℕ)
    → selects rate o ≡ true
    → ((rs : ℕ) → 2 < rs → rs < 16 → frequency rs ≢ rate)
    → o ≡ none
none_of_selects rate none h no_rate = refl
none_of_selects rate (some rs) h no_rate =
    absurd (no_rate rs (ground arith) (ground arith) (ground arith))

rate_select-none :
    (rate : ℕ) → ((rs : ℕ) → 2 < rs → rs < 16 → frequency rs ≢ rate) → rate_select rate ≡ none
rate_select-none rate no_rate = elim (dec_lt 1024 rate) [
  | yes fast ↦ too_fast rate fast
  | no slow ↦
      none_of_selects rate (rate_select rate)
        (passes_below_each 1025 _ rate rate_table (omega arith)) no_rate
]

-- Register A after the write: the rate bits are `rs`, the upper four as they were.
rate_bits_table :
    passes_below 256 (λ prev.
      passes_below 16
        (λ rs. (with_rate rs prev % 16 == rs) && (with_rate rs prev / 16 == prev / 16)))
    ≡ true
unfolding passes_below with_rate
rate_bits_table = refl

with_rate_bits :
    (prev rs : ℕ)
    → prev < 256
    → rs < 16
    → (with_rate rs prev % 16 ≡ rs) × (with_rate rs prev / 16 ≡ prev / 16)
with_rate_bits prev rs hp hr =
    ground (arith, passes_below_each 16 _ rs (passes_below_each 256 _ prev rate_bits_table hp) hr)

frequency_table : passes_below 10 (λ k. frequency (15 - k) == 2 ^ suc k) ≡ true
unfolding passes_below
frequency_table = refl

-- What the last write to the clock puts into register A.
abbrev pub register_a : Device → ℕ → Ports → ℕ
register_a dev rs io = with_rate rs (select_read dev status_reg_a io)

-- `rtc_write` of a four-byte buffer with one of the ten powers of two from 2 to 1024 succeeds, and
-- its last access writes to the data port a byte whose rate bits make the clock tick at just that
-- rate, and whose upper bits are those that it read from register A.
pub rtc_write-power :
    (dev : Device) (j : ℕ) (io : Ports)
    → j < 10
    → let a = register_a dev (15 - j) io in
      (rtc_write dev (some (2 ^ suc j)) (pos 4) io
        ≡ (pos 0, wrote (a % 256) 0x71 ∷ wrote 0x8A 0x70 ∷ was_read 0x71 ∷ wrote 0x8A 0x70 ∷ io))
      × (frequency (a % 16) ≡ 2 ^ suc j)
      × (a / 16 ≡ select_read dev status_reg_a io / 16)
unfolding rtc_write
rtc_write-power dev j io h = (
  rw (rate_select-power j h, rtc_write) refl,
  rw ((with_rate_bits (select_read dev status_reg_a io) (15 - j) (omega arith) (omega arith)).0) (
      (==_iff _ _).0
        (passes_below_each 10 (λ k. frequency (15 - k) == 2 ^ suc k) j frequency_table h)),
  (with_rate_bits (select_read dev status_reg_a io) (15 - j) (omega arith) (omega arith)).1,
)

-- Any rate that the clock cannot be set to, with selections 3 to 15, is refused, and no port is
-- touched; so are a null pointer and any other size.
pub rtc_write_refuses :
    (dev : Device) (rate : ℕ) (nbytes : ℤ) (io : Ports)
    → ((rs : ℕ) → 2 < rs → rs < 16 → frequency rs ≢ rate) ⊎ (nbytes ≢ pos 4)
    → (rtc_write dev (some rate) nbytes io ≡ (minus_one, io))
      × (rtc_write dev none nbytes io ≡ (minus_one, io))
unfolding rtc_write
rtc_write_refuses dev rate nbytes io (inl no_rate) =
    (rw (rate_select-none rate no_rate, rtc_write) (ground arith), refl)
rtc_write_refuses dev rate (pos n) io (inr other) = (ground (arith, size n), refl)
  where
    size : (n : ℕ) → n ≡ 4 → pos n ≡ pos 4
    size n e = ap pos e
rtc_write_refuses dev rate (negsuc n) io (inr other) = (ground arith, refl)

-- `rtc_read` returns as soon as the interrupt handler has run once, whatever was pending before,
-- and takes the interrupt: the flag is clear again.
pub rtc_read_returns :
    (received : ℕ) (before after : List Bool)
    → rtc_read received (before ++ true ∷ after) ≡ some (pos 0, 0)
unfolding rtc_read
rtc_read_returns received [] after = refl
rtc_read_returns received (tick ∷ before) after =
    ground (arith, rtc_read_returns (if tick then 1 else received) before after)
