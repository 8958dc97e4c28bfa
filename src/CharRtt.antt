-- ===== src/CharRtt.antt =====
-- m4/tools/rpmsg-char-rtt.c: measures round trips to the echo firmware over rpmsg_char. What the
-- calls of the operating system give, `qsort` and the clock are parameters. Times are below 2^63 ns,
-- and `n * 99` fits an `int`. What is printed is left out, other than the four numbers.
pub mod Report
pub mod Served
mod Tests
use mathlib.Core.Option
use kmm_yocto.Base.{
  ℕ, zero, suc, ◌+◌, ◌-◌, ◌*◌, Bool, true, false, not, Option, none, some, List, [], ◌∷◌, ◌++◌, ltb,
  ◌==◌, if◌then◌else◌, codes, ℤ, pos, negsuc,
}
use kmm_yocto.Rtt.{Summary, summary}

-- M4_EPT_ADDR
abbrev pub m4_ept_addr : ℕ
m4_ept_addr = 30

-- `ns_now`
abbrev pub ns_now : ℕ × ℕ → ℕ
ns_now (sec, nsec) = sec * 1000000000 + nsec

-- `cmp_ll`
abbrev pub cmp_ll : ℕ → ℕ → ℤ
cmp_ll x y = if ltb y x then pos 1 else (if ltb x y then negsuc 0 else pos 0)

-- `struct rpmsg_endpoint_info`
pub record EndpointInfo : Type 0 where
  pub name : List ℕ
  pub src : ℕ
  pub dst : ℕ

-- The operating system. `can_open i` is about /dev/rpmsg<i>; `sends k`, `polls k` and `receives k`
-- are what `write`, `poll` and `read` return in round `k`, and `clock k` the k-th reading of the
-- clock.
pub record Os : Type 0 where
  pub opens_ctrl : Bool
  pub creates : EndpointInfo → Bool
  pub can_open : ℕ → Bool
  pub warm_poll : ℤ
  pub sends : ℕ → ℤ
  pub polls : ℕ → ℤ
  pub receives : ℕ → ℤ
  pub clock : ℕ → ℕ × ℕ

-- How the program ends.
pub data Ended : Type 0 where
  exits : ℕ → Ended
  reports : (device : ℕ) → Summary → Ended

-- `for (i = 7; i >= 0; i--)`, from `i - 1` on
unfoldable pub find_dev : (can_open : ℕ → Bool) → ℕ → Option ℕ
find_dev can_open zero = none
find_dev can_open (suc i) = let rest = find_dev can_open i in if can_open i then some i else rest

-- `x <= 0` for an `int`
abbrev pub not_positive : ℤ → Bool
not_positive (pos n) = n == 0
not_positive (negsuc n) = true

-- `write(...) == sizeof(tx)`
abbrev pub is_sixteen : ℤ → Bool
is_sixteen (pos n) = n == 16
is_sixteen (negsuc n) = false

-- What the loop leaves: an exit code or the times.
pub data Rounds : Type 0 where
  fails : ℕ → Rounds
  measured : List ℕ → Rounds

module _ (os : Os) where
  -- The time that round `i` takes.
  abbrev pub elapsed : ℕ → ℕ
  elapsed i = ns_now (os.clock (2 * i + 1)) - ns_now (os.clock (2 * i))

  -- `for (i = 0; i < n; i++)`, with `left` rounds left
  unfoldable pub measure : (left i : ℕ) (rtt : List ℕ) → Rounds
  measure zero i rtt = measured rtt
  measure (suc left) i rtt =
      let next = measure left (i + 1) (rtt ++ (elapsed i ∷ [])) in
      if not (is_sixteen (os.sends i))
      then fails 1
      else (if not_positive (os.polls i)
          then fails 2
          else (if not_positive (os.receives i) then fails 1 else next))

  module _ (qsort : (ℕ → ℕ → ℤ) → List ℕ → List ℕ) where
    -- After the loop. `rtt[...]` out of range gives `none`.
    unfoldable pub finish : (n device : ℕ) → Rounds → Option Ended
    finish n device (fails code) = some (exits code)
    finish n device (measured rtt) = Option.map (reports device) (summary n (qsort cmp_ll rtt))

    -- The warm-up, and what follows.
    unfoldable pub with_device : (n device : ℕ) → Option Ended
    with_device n device =
        if not_positive os.warm_poll then some (exits 1) else finish n device (measure n 0 [])

    -- `main` with the count that it is given.
    unfoldable pub main : ℕ → Option Ended
    main n =
        let info : EndpointInfo = record {
          name = codes "rpmsg-rtt";
          src = 0xFFFFFFFF;
          dst = m4_ept_addr;
        } in
        if not os.opens_ctrl
        then some (exits 1)
        else (if not (os.creates info) then some (exits 1) else elim (find_dev os.can_open 8) [
          | none ↦ some (exits 1)
          | some device ↦ with_device n device
        ])
