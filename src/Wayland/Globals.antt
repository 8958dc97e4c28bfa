-- ===== src/Wayland/Globals.antt =====
-- The attempts to connect, and the globals that are bound.
use kmm_yocto.Base.{
  ℕ, zero, suc, ◌+◌, ◌<◌, ◌≡◌, refl, ap, ◌⊎◌, inl, inr, Bool, true, List, [], ◌∷◌, arith,
  Bool-cases, ◌≤◌, ◌==◌,
}
use kmm_yocto.Wayland.{
  Interface, wl_compositor, wl_shm, xdg_wm_base, unrelated, Client, registry_global, connects,
  bind_all,
}

same_index : (i n : ℕ) → i == n ≡ true → i ≡ n
same_index i n h = ground arith

pub connects-some :
    (left i n : ℕ) (answers : ℕ → Bool)
    → i + left ≡ 1000
    → i ≤ n
    → n < 1000
    → answers n ≡ true
    → connects left i answers ≡ true
unfolding connects
connects-some zero i n answers e h k a = absurd (omega arith)
connects-some (suc left) i n answers e h k a = elim (Bool-cases (answers i)) [
  | inl now ↦ rw now refl
  | inr later ↦ rw later (
      connects-some left (i + 1) n answers (omega arith)
        (elim (Bool-cases (i == n)) [
          | inl same ↦ absurd (ground (arith, ap answers (same_index i n same)))
          | inr other ↦ ground arith
        ])
        k a)
]

unfoldable pub Announced : Interface → List Interface → Type 0
Announced i [] = ⊥
Announced i (g ∷ gs) = (g ≡ i) ⊎ Announced i gs

pub bind_all-bound :
    (gs : List Interface) (c : Client)
    → ((c.compositor ≡ true) ⊎ Announced wl_compositor gs → (bind_all gs c).compositor ≡ true)
      × ((c.shm ≡ true) ⊎ Announced wl_shm gs → (bind_all gs c).shm ≡ true)
      × ((c.wm_base ≡ true) ⊎ Announced xdg_wm_base gs → (bind_all gs c).wm_base ≡ true)
      × ((bind_all gs c).win_w ≡ c.win_w)
      × ((bind_all gs c).win_h ≡ c.win_h)
      × ((bind_all gs c).configured ≡ c.configured)
      × ((bind_all gs c).sent ≡ c.sent)
unfolding bind_all registry_global Announced
bind_all-bound [] c = ground arith
bind_all-bound (wl_compositor ∷ gs) c =
    ground (arith, bind_all-bound gs (registry_global wl_compositor c))
bind_all-bound (wl_shm ∷ gs) c = ground (arith, bind_all-bound gs (registry_global wl_shm c))
bind_all-bound (xdg_wm_base ∷ gs) c =
    ground (arith, bind_all-bound gs (registry_global xdg_wm_base c))
bind_all-bound (unrelated ∷ gs) c = ground (arith, bind_all-bound gs c)
