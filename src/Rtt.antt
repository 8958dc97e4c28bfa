-- ===== src/Rtt.antt =====
-- m4/tools/rpmsg-rtt.c: measures round trips to the echo firmware. What each `read` returns and the
-- time that each attempt takes are parameters. Times are below 2^31 * 25000 ns, and `n * 99` fits an
-- `int`. An access out of range gives `none`.
pub mod Measure
pub mod Main
pub mod Report
pub mod Lossless
pub mod Served
pub mod Sort
mod Tests
use mathlib.Core.Option
use kmm_yocto.Base.{
  ℕ, zero, suc, ◌+◌, ◌-◌, ◌*◌, ◌/◌, Bool, true, false, not, Option, none, some, List, [], ◌∷◌, ◌++◌,
  ltb, ◌==◌, if◌then◌else◌, length, get_elem?, store, replicate, ℤ, pos, negsuc,
}

-- `sizeof(tx)`
abbrev pub tx_size : ℕ
tx_size = 16

-- `while (got < sizeof(tx))`: what is got after the reads of one attempt, given in order. A read
-- that is not listed returns nothing: the terminal gives up after a second.
unfoldable pub collect : (got : ℕ) → List ℤ → ℕ
collect got [] = got
collect got (pos zero ∷ rs) = got
collect got (pos (suc r) ∷ rs) =
    let rest = collect (got + suc r) rs in if ltb got tx_size then rest else got
collect got (negsuc r ∷ rs) = got

-- The reads that this loop does not make.
unfoldable pub left_after : (got : ℕ) → List ℤ → List ℤ
left_after got [] = []
left_after got (pos zero ∷ rs) = if ltb got tx_size then rs else pos zero ∷ rs
left_after got (pos (suc r) ∷ rs) =
    let rest = left_after (got + suc r) rs in if ltb got tx_size then rest else pos (suc r) ∷ rs
left_after got (negsuc r ∷ rs) = if ltb got tx_size then rs else negsuc r ∷ rs

abbrev pub after_one : List ℤ → List ℤ
after_one [] = []
after_one (r ∷ rs) = rs

-- `write(fd, tx, sizeof(tx))`: each write of a ping brings reads behind those that are still to be
-- made. `answers k` are those of the k-th write, the warm-up's being number 0, in order; a write
-- that fails brings none.
module _ (answers : ℕ → List ℤ) where
  abbrev pub write_ping : (k : ℕ) → List ℤ → List ℤ
  write_ping k waiting = waiting ++ answers k

  -- `read(fd, rx, sizeof(rx))`, once, whatever it brings.
  abbrev pub warm_up : List ℤ
  warm_up = after_one (write_ping 0 [])

  -- The reads that are still to be made before attempt `a`, and those that it finds.
  unfoldable pub waiting_before : (a : ℕ) → List ℤ
  waiting_before zero = warm_up
  waiting_before (suc a) = left_after 0 (write_ping (suc a) (waiting_before a))

  unfoldable pub offered : (a : ℕ) → List ℤ
  offered a = write_ping (suc a) (waiting_before a)

-- How the measurement ends.
pub data Measured : Type 0 where
  done : (lost : ℕ) (rtt : List ℕ) → Measured
  too_many_losses : Measured

-- The loop over `i`, from attempt `a` on; `answers a` are the reads that this attempt finds, and
-- `elapsed a` is its time. `none` means that the fuel ran out.
module _ (n : ℕ) (answers : ℕ → List ℤ) (elapsed : ℕ → ℕ) where
  unfoldable pub measure : (fuel a i lost : ℕ) (rtt : List ℕ) → Option Measured
  measure zero a i lost rtt = none
  measure (suc fuel) a i lost rtt =
      let again = measure fuel (a + 1) i (lost + 1) rtt in
      let next = measure fuel (a + 1) (i + 1) lost (rtt ++ (elapsed a ∷ [])) in
      if not (ltb i n)
      then some (done lost rtt)
      else (if not (collect 0 (answers a) == tx_size)
          then (if ltb 50 (lost + 1) then some too_many_losses else again)
          else next)

-- `min`, `median`, `p99` and `max` of the sorted times.
pub record Summary : Type 0 where
  pub least : ℕ
  pub median : ℕ
  pub p99 : ℕ
  pub most : ℕ

-- The four reads; `rtt[n - 1]` is before the array if `n` is 0.
unfoldable pub summary : (n : ℕ) → List ℕ → Option Summary
unfolding Option.bind
summary n rtt = Option.bind (get_elem? rtt 0) (λ least.
    Option.bind (get_elem? rtt (n / 2)) (λ median.
      Option.bind (get_elem? rtt (n * 99 / 100)) (λ p99.
        Option.map (λ most. record { least = least; median = median; p99 = p99; most = most })
          (if n == 0 then none else get_elem? rtt (n - 1)))))

-- `b > 19 ? 19 : b`
abbrev pub bin_of : ℕ → ℕ
bin_of time = let b = time / 25000 in if ltb 19 b then 19 else b

-- `bins[...]++` for every time.
unfoldable pub histogram : (times bins : List ℕ) → Option (List ℕ)
unfolding Option.bind
histogram [] bins = some bins
histogram (t ∷ ts) bins =
    Option.bind (get_elem? bins (bin_of t))
      (λ c. Option.bind (store (bin_of t) (c + 1) bins) (histogram ts))
