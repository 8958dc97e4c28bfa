-- ===== src/DrmDump/Find.antt =====
-- Atomic requests as groups of properties, and the search for one.
use mathlib.Core.Option
use kmm_yocto.Base.{
  ℕ, ◌≡◌, refl, Option, none, some, List, [], ◌∷◌, ◌++◌, arith, length, if◌then◌else◌, Bool-cases,
  inl, inr,
}
use kmm_yocto.DrmDump.{Atomic, Scan, hit, past, is_named, scan, find_from, find_prop}

-- An object with its properties and their values.
abbrev pub Group : Type 0
Group = ℕ × List (ℕ × ℕ)

abbrev pub objs_of : List Group → List ℕ
objs_of [] = []
objs_of ((o, ps) ∷ gs) = o ∷ objs_of gs

abbrev pub counts_of : List Group → List ℕ
counts_of [] = []
counts_of ((o, ps) ∷ gs) = length ps ∷ counts_of gs

abbrev pub firsts : List (ℕ × ℕ) → List ℕ
firsts [] = []
firsts ((p, v) ∷ ps) = p ∷ firsts ps

abbrev pub seconds : List (ℕ × ℕ) → List ℕ
seconds [] = []
seconds ((p, v) ∷ ps) = v ∷ seconds ps

abbrev pub props_of : List Group → List ℕ
props_of [] = []
props_of ((o, ps) ∷ gs) = firsts ps ++ props_of gs

abbrev pub values_of : List Group → List ℕ
values_of [] = []
values_of ((o, ps) ∷ gs) = seconds ps ++ values_of gs

-- The request of these groups.
abbrev pub pack : (flags user_data : ℕ) → List Group → Atomic
pack flags user_data gs = record {
  flags = flags;
  count_objs = length gs;
  objs = objs_of gs;
  count_props = counts_of gs;
  props = props_of gs;
  prop_values = values_of gs;
  user_data = user_data;
}

module _ (name_of : ℕ → Option (List ℕ)) (want : List ℕ) where
  -- The first value with the wanted name among the properties of one object.
  abbrev pub first_in : List (ℕ × ℕ) → Option ℕ
  first_in [] = none
  first_in ((p, v) ∷ ps) = if is_named name_of want p then some v else first_in ps

  -- The first object that has it, with its value.
  abbrev pub first_of : List Group → Option (ℕ × ℕ)
  first_of [] = none
  first_of ((o, ps) ∷ gs) = elim (first_in ps) [ none ↦ first_of gs | some v ↦ some (o, v) ]

  abbrev scanned : Option ℕ → (ps vs : List ℕ) → Scan
  scanned none ps vs = past ps vs
  scanned (some v) ps vs = hit v

  scan_lem :
      (g : List (ℕ × ℕ)) (ps vs : List ℕ)
      → scan name_of want (length g) (firsts g ++ ps) (seconds g ++ vs)
        ≡ some (scanned (first_in g) ps vs)
  unfolding scan
  scan_lem [] ps vs = refl
  scan_lem ((p, v) ∷ g) ps vs = elim (Bool-cases (is_named name_of want p)) [
    | inl found ↦ rw found refl
    | inr other ↦ rw other (scan_lem g ps vs)
  ]

  find_from_lem :
      (gs : List Group)
      → find_from name_of want (length gs) (objs_of gs) (counts_of gs) (props_of gs) (values_of gs)
        ≡ some (first_of gs)
  unfolding find_from Option.bind
  find_from_lem [] = refl
  find_from_lem ((o, g) ∷ gs) =
      ground (arith, scan_lem g (props_of gs) (values_of gs), find_from_lem gs)

  -- On a request whose four arrays are those of a list of groups, `find_prop` reads no array behind
  -- its end, and finds the first property with the name wanted: its object and its value, or that
  -- there is none.
  pub find_prop-pack :
      (flags user_data : ℕ) (gs : List Group)
      → find_prop name_of (pack flags user_data gs) want ≡ some (first_of gs)
  unfolding find_prop
  find_prop-pack flags user_data gs = find_from_lem gs
