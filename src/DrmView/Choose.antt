-- ===== src/DrmView/Choose.antt =====
-- The choice of connector and CRTC.
use kmm_yocto.Base.{
  ℕ, ◌≡◌, ◌≢◌, refl, sym, ap, ◌∙◌, ◌⊎◌, inl, inr, Option, none, some, List, [], ◌∷◌, arith, ◌==◌,
  Bool-cases, All,
}
use mathlib.Core.Option.{some-injective}
use kmm_yocto.DrmView.{Mode, Connector, usable, or_else, find_connector}

-- The connector `id` can show a picture, with `m` as its first mode.
abbrev pub CanShow : (get : ℕ → Option Connector) → ℕ → Connector → Mode → Type 0
CanShow get id c m =
    (get id ≡ some c) × (c.connection ≡ 1) × (rest : List Mode) × (c.modes ≡ m ∷ rest)

-- The connector `id` cannot show a picture.
abbrev pub Useless : (get : ℕ → Option Connector) → ℕ → Type 0
Useless get id = (c : Connector) → get id ≡ some c → (c.connection ≢ 1) ⊎ (c.modes ≡ [])

-- What `find_connector` finds in a list.
pub data Found (get : ℕ → Option Connector) : List ℕ → Option (Connector × Mode) → Type 0 where
  nothing : {ids : List ℕ} → All (Useless get) ids → Found get ids none
  here :
      {id : ℕ} {ids : List ℕ} (c : Connector) (m : Mode)
      → CanShow get id c m
      → Found get (id ∷ ids) (some (c, m))
  later :
      {id : ℕ} {ids : List ℕ} (c : Connector) (m : Mode)
      → Useless get id
      → Found get ids (some (c, m))
      → Found get (id ∷ ids) (some (c, m))

skip :
    (get : ℕ → Option Connector) (id : ℕ) (ids : List ℕ) (r : Option (Connector × Mode))
    → Useless get id
    → Found get ids r
    → Found get (id ∷ ids) r
skip get id ids none u (nothing all) = nothing (u, all)
skip get id ids (some (c, m)) u f = later c m u f

-- What `usable` makes of the answer for one connector.
usable_cases :
    (get : ℕ → Option Connector) (id : ℕ) (ids : List ℕ) (o : Option Connector)
    → get id ≡ o
    → (r : Option (Connector × Mode)) → Found get ids r
    → Found get (id ∷ ids) (or_else (usable o) r)
unfolding usable
usable_cases get id ids none at r f = skip get id ids r (λ c e. absurd (cc)) f
usable_cases get id ids (some c) at r f = with_modes c.modes refl
  where
    same : (d : Connector) → get id ≡ some d → d ≡ c
    same d e = some-injective _ _ (sym e ∙ at)

    with_modes :
        (ms : List Mode) → c.modes ≡ ms → Found get (id ∷ ids) (or_else (usable (some c)) r)
    with_modes [] has =
        rw has (skip get id ids r (λ d e. inr (ap (λ k. k.modes) (same d e) ∙ has)) f)
    with_modes (m ∷ ms) has = rw has (elim (Bool-cases (c.connection == 1)) [
      | inl on ↦ rw on (here c m (at, ground arith, ms, has))
      | inr off ↦ rw off (
          skip get id ids r
            (λ d e. inl (λ one.
              let same_one : c.connection ≡ 1 = ap (λ k. k.connection) (sym (same d e)) ∙ one in
              ground arith))
            f)
    ])

-- The search finds the first connector of the list that is connected and has a mode, with its first
-- mode; it finds none only if every connector is missing, not connected or without a mode.
pub find_connector-Found :
    (get : ℕ → Option Connector) (ids : List ℕ) → Found get ids (find_connector get ids)
unfolding find_connector
find_connector-Found get [] = nothing tt
find_connector-Found get (id ∷ ids) =
    usable_cases get id ids (get id) refl (find_connector get ids) (find_connector-Found get ids)
