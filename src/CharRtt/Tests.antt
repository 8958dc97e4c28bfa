-- ===== src/CharRtt/Tests.antt =====
-- Two round trips over /dev/rpmsg3, and one that stalls.
use kmm_yocto.Base.{ℕ, ◌≤◌, ◌<◌, ◌≡◌, refl, true, some, arith, ◌==◌, if◌then◌else◌, List, ℤ, pos}
use kmm_yocto.Rtt.{Summary}
use kmm_yocto.Rtt.Sort.{sort, sort-Sorts}
use kmm_yocto.CharRtt.{Os, reports, elapsed, main}
use kmm_yocto.CharRtt.Report.{Ready, Answered}
use kmm_yocto.CharRtt.Served.{tx, fed, served-reports}
use kmm_yocto.Echo
use kmm_yocto.Echo.Rounds.{pings, answer_at}

-- The k-th reading of the clock: round 0 takes 5 ns, round 1 takes 7 ns.
abbrev clock : ℕ → ℕ × ℕ
clock k =
    if k == 0 then (1, 0) else (if k == 1 then (1, 5) else (if k == 2 then (2, 0) else (2, 7)))

abbrev os : Os
os = record {
  opens_ctrl = true;
  creates = λ info. true;
  can_open = λ i. i == 3;
  warm_poll = pos 1;
  sends = λ k. pos 16;
  polls = λ k. pos 1;
  receives = λ k. pos 16;
  clock = clock;
}

os-Ready : Ready os 3
os-Ready = record {
  opens = refl;
  creates = refl;
  highest = (omega arith, refl, λ k a b. ground arith);
  warm = refl;
}

abbrev taken : List (ℕ × List ℕ) → ℕ → List ℕ → ℤ
taken out to m = pos 0

served-reports_example :
    let firmware = Echo.run taken (pings 1024 tx 3) Echo.start in
    let os' = fed os (answer_at taken 1024 firmware) in
    (s : Summary) × ((k : ℕ) → k < 2 → Answered os' k)
    × (main os' sort 2 ≡ some (reports 3 s))
    × (s.least ≤ s.median)
    × (s.median ≤ s.p99)
    × (s.p99 ≤ s.most)
    × ((k : ℕ) → k < 2 → (s.least ≤ elapsed os' k) × (elapsed os' k ≤ s.most))
served-reports_example =
    served-reports taken 1024 2 3 os sort (λ out to m. refl) refl refl os-Ready.highest (λ k. refl)
      sort-Sorts (omega arith)
