-- ===== src/Rtt/Tests.antt =====
-- A few round trips: the first attempt loses its answer, the second gets it in two reads.
use mathlib.Core.Option
use kmm_yocto.Base.{
  ℕ, zero, suc, ◌≤◌, ◌<◌, length, ◌+◌, ◌≡◌, refl, true, some, none, List, [], ◌∷◌, arith, ◌==◌,
  if◌then◌else◌, ℤ, pos,
}
use kmm_yocto.Rtt.{done, collect, measure, summary, offered, waiting_before}
use kmm_yocto.Echo
use kmm_yocto.Rtt.{Summary}
use kmm_yocto.Rtt.Served.{IsSplit, tx, served-Reports}
use kmm_yocto.Echo.Rounds.{pings, answer_at}
use kmm_yocto.Rtt.Main.{reports, total, Ended, main, EndsWith, main-EndsWith}
use kmm_yocto.Rtt.Sort.{sort, sort-Sorts}

abbrev answers : ℕ → List ℤ
answers n = if n == 0 then pos 5 ∷ [] else (pos 10 ∷ pos 6 ∷ [])

abbrev elapsed : ℕ → ℕ
elapsed n = 60000 + n

two_of_three : measure 2 answers elapsed 5 0 0 0 [] ≡ some (done 1 (60001 ∷ 60002 ∷ []))
unfolding measure collect
two_of_three = refl

-- A measurement of no round trips reads before the array.
none_measured : summary 0 [] ≡ none
unfolding summary Option.bind
none_measured = refl

main-EndsWith_example :
    (e : Ended) × (b : ℕ) × (main sort true answers elapsed (some 2) ≡ some e)
    × EndsWith (offered answers) elapsed 2 b e
main-EndsWith_example = main-EndsWith answers elapsed 2 sort sort-Sorts (omega arith) (some 2) refl

-- The first byte of an answer comes alone, but for the warm-up.
abbrev cut : ℕ → List ℕ → List ℤ
cut zero m = pos (length m) ∷ []
cut (suc a) [] = []
cut (suc a) (x ∷ []) = pos 1 ∷ []
cut (suc a) (x ∷ y ∷ m) = pos 1 ∷ pos (suc (length m)) ∷ []

cut-IsSplit : (a : ℕ) (m : List ℕ) → IsSplit (length m) (cut (suc a) m)
cut-IsSplit a [] = refl
cut-IsSplit a (x ∷ []) = (omega arith, omega arith)
cut-IsSplit a (x ∷ y ∷ m) = (omega arith, (omega arith, omega arith))

abbrev taken : List (ℕ × List ℕ) → ℕ → List ℕ → ℤ
taken out to m = pos 0

served-Reports_example :
    let firmware = Echo.run taken (pings 1024 tx 3) Echo.start in
    let replies : ℕ → List ℤ = λ a. cut a (answer_at taken 1024 firmware a) in
    (s : Summary) × (bins : List ℕ) × (main sort true replies elapsed (some 2)
      ≡ some (reports 0 s bins))
    × (s.least ≤ s.median)
    × (s.median ≤ s.p99)
    × (s.p99 ≤ s.most)
    × ((k : ℕ) → k < 2 → (s.least ≤ elapsed k) × (elapsed k ≤ s.most))
    × (length bins ≡ 20)
    × (total bins ≡ 2)
served-Reports_example =
    served-Reports taken 1024 2 cut elapsed sort (λ out to m. refl) (λ m. refl) cut-IsSplit
      sort-Sorts (omega arith)

-- A warm-up whose answer comes in two reads leaves the second to the first attempt, which loses.
abbrev torn : ℕ → List ℤ
torn k = if k == 0 then pos 5 ∷ pos 11 ∷ [] else pos 16 ∷ []

torn_warm_up : (offered torn 0 ≡ pos 11 ∷ pos 16 ∷ []) × (collect 0 (offered torn 0) ≡ 27)
unfolding offered waiting_before collect
torn_warm_up = (refl, refl)
