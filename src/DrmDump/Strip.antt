-- ===== src/DrmDump/Strip.antt =====
-- `do_strip`: what is left of a request.
use mathlib.Core.Option
use mathlib.Core.List.{append_assoc, append-nil}
use kmm_yocto.Base.{
  ℕ, zero, suc, ◌+◌, ◌≤◌, ◌<◌, ◌≡◌, refl, ap, ◌∙◌, false, Option, some, List, [], ◌∷◌, ◌++◌, arith,
  length, length-append, leb, min, if◌then◌else◌, Bool-cases, inl, inr, Option-cases,
}
use kmm_yocto.DrmDump.{Atomic, Arrays, dropped, strip_props, strip_objs, stripped}
use kmm_yocto.DrmDump.Find.{Group, objs_of, counts_of, firsts, seconds, props_of, values_of, pack}

length-firsts : (g : List (ℕ × ℕ)) → length (firsts g) ≡ length g
length-firsts [] = refl
length-firsts ((p, v) ∷ g) = ap suc (length-firsts g)

module _ (name_of : ℕ → Option (List ℕ)) where
  -- The properties that stay.
  abbrev pub staying : List (ℕ × ℕ) → List (ℕ × ℕ)
  staying [] = []
  staying ((p, v) ∷ ps) = if dropped name_of p then staying ps else (p, v) ∷ staying ps

  abbrev pub without : List Group → List Group
  without [] = []
  without ((o, ps) ∷ gs) = (o, staying ps) ∷ without gs

  -- How many properties there are in all.
  abbrev pub total : List Group → ℕ
  total [] = 0
  total ((o, ps) ∷ gs) = length ps + total gs

  strip_props_lem :
      (g : List (ℕ × ℕ)) (n : ℕ) (np nv ps vs : List ℕ)
      → length np + length (staying g) ≤ 64
      → strip_props name_of (length g) n np nv (firsts g ++ ps) (seconds g ++ vs)
        ≡ some (record {
          count = n + length (staying g);
          nprops = np ++ firsts (staying g);
          nvals = nv ++ seconds (staying g);
          ps = ps;
          vs = vs;
        })
  unfolding strip_props
  strip_props_lem [] n np nv ps vs h = ground (arith, append-nil np, append-nil nv)
  strip_props_lem ((p, v) ∷ g) n np nv ps vs h = elim (Bool-cases (dropped name_of p)) [
    | inl drop ↦ rw drop (strip_props_lem g n np nv ps vs (ground arith))
    | inr stay ↦
        (let room : leb 64 (length np) ≡ false = ground arith in
          let rest =
            strip_props_lem g (n + 1) (np ++ (p ∷ [])) (nv ++ (v ∷ [])) ps vs
              (ground (arith, length-append np (p ∷ []))) in
          rw (stay, room)
            (rest
              ∙ ground (
                arith,
                append_assoc np (p ∷ []) (firsts (staying g)),
                append_assoc nv (v ∷ []) (seconds (staying g)),
              )))
  ]

  strip_objs_lem :
      (gs : List Group) (c np nv : List ℕ)
      → length np + total (without gs) ≤ 64
      → strip_objs name_of (length gs) (counts_of gs) c np nv (props_of gs) (values_of gs)
        ≡ some (record {
          ncnt = c ++ counts_of (without gs);
          nprops = np ++ props_of (without gs);
          nvals = nv ++ values_of (without gs);
        })
  unfolding strip_objs Option.bind
  strip_objs_lem [] c np nv h = ground (arith, append-nil c, append-nil np, append-nil nv)
  strip_objs_lem ((o, g) ∷ gs) c np nv h =
      let np' = np ++ firsts (staying g) in
      let nv' = nv ++ seconds (staying g) in
      let c' = c ++ (length (staying g) ∷ []) in
      let rest =
        strip_objs_lem gs c' np' nv'
          (omega (arith, length-append np (firsts (staying g)), length-firsts (staying g))) in
      let from_zero : 0 + length (staying g) ≡ length (staying g) = omega arith in
      rw (strip_props_lem g 0 np nv (props_of gs) (values_of gs) (omega arith), from_zero)
        (rest
          ∙ ground (
            arith,
            append_assoc c (length (staying g) ∷ []) (counts_of (without gs)),
            append_assoc np (firsts (staying g)) (props_of (without gs)),
            append_assoc nv (seconds (staying g)) (values_of (without gs)),
          ))

  without-objs : (gs : List Group) → objs_of (without gs) ≡ objs_of gs
  without-objs [] = refl
  without-objs ((o, g) ∷ gs) = ap (λ l. o ∷ l) (without-objs gs)

  length-without : (gs : List Group) → length (without gs) ≡ length gs
  length-without [] = refl
  length-without ((o, g) ∷ gs) = ap suc (length-without gs)

  -- On a request of at most 16 objects of which at most 64 properties stay, `do_strip` issues the
  -- same request without the properties VRR_ENABLED and "max bpc": every object keeps its place and
  -- its other properties in order, and no array is read behind its end.
  pub stripped-pack :
      (flags user_data : ℕ) (gs : List Group)
      → length gs ≤ 16
      → total (without gs) ≤ 64
      → stripped name_of (pack flags user_data gs) ≡ some (pack flags user_data (without gs))
  unfolding stripped
  stripped-pack flags user_data gs h k =
      let all : min (length gs) 16 ≡ length gs = omega arith in
      rw (all, strip_objs_lem gs [] [] [] (omega arith))
        (rw (without-objs gs, length-without gs) refl)

  strip_objs-bounds :
      (left : ℕ) (ns c np nv ps vs : List ℕ) (r : Arrays)
      → strip_objs name_of left ns c np nv ps vs ≡ some r
      → length r.ncnt ≡ length c + left
  unfolding strip_objs Option.bind
  strip_objs-bounds zero ns c np nv ps vs r e = ground arith
  strip_objs-bounds (suc left) [] c np nv ps vs r e = ground arith
  strip_objs-bounds (suc left) (n ∷ ns) c np nv ps vs r e =
      elim (Option-cases (strip_props name_of n 0 np nv ps vs)) [
        | inl stuck ↦ ground arith
        | inr (k, got) ↦ ground (
          arith,
          length-append c (k.count ∷ []),
          strip_objs-bounds left ns (c ++ (k.count ∷ [])) k.nprops k.nvals k.ps k.vs r,
        )
      ]

  -- On a request of more than 16 objects, `do_strip` counts the properties of 16 of them only, but
  -- leaves the number of objects as it is: the kernel is told of more counts than there are.
  pub stripped_short :
      (a b : Atomic)
      → 16 < a.count_objs
      → stripped name_of a ≡ some b
      → length b.count_props < b.count_objs
  unfolding stripped
  stripped_short a b h e =
      elim (Option-cases
        (strip_objs name_of (min a.count_objs 16) a.count_props [] [] [] a.props a.prop_values)) [
          | inl stuck ↦ ground arith
          | inr (r, got) ↦ ground (
            arith,
            strip_objs-bounds (min a.count_objs 16) a.count_props [] [] [] a.props a.prop_values r
                got,
          )
        ]
