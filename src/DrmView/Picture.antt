-- ===== src/DrmView/Picture.antt =====
-- What the program shows when every call works.
use mathlib.Core.Option
use kmm_yocto.Base.{
  ℕ, zero, suc, ◌+◌, ◌*◌, ◌^◌, ◌≤◌, ◌<◌, ◌≡◌, refl, ap, ◌∙◌, true, false, ◌&&◌, none, some, List,
  [], ◌∷◌, Bool, arith, ltb, leb, if◌then◌else◌, length, get_or, take, drop, min, replicate,
  length-replicate, length-take, blit, blit_lem, codes, has_arg, row_below,
}
use mathlib.Core.List.{append-nil}
use kmm_yocto.WlImageView.Load.{ReadsFile, load_loop-take}
use kmm_yocto.DrmView.{Mode, Connector, Dumb, Card, copy_rows, load_image}
use kmm_yocto.DrmView.Copy.{copy_rows_lem}
use kmm_yocto.DrmView.Start.{goes, choose, new_buffer, place, main, Shown, image_w, image_h}

-- `malloc` succeeds.
abbrev pub Allocates : (ℕ → Option.Option (List ℕ)) → Type 0
Allocates malloc = (n : ℕ) → (junk : List ℕ) × (malloc n ≡ some junk) × (length junk ≡ n)

-- The display works: the calls for one buffer `d` succeed, and it has room for every row.
pub record Works (card : Card) (c : Connector) (m : Mode) (crtc fb : ℕ) (d : Dumb) (old : List ℕ)
    : Type 0 where
  pub chosen : choose card ≡ goes (c, m, crtc)
  pub created : card.create_dumb 0 m.hdisplay m.vdisplay ≡ some d
  pub added : card.add_fb d ≡ some fb
  pub can_map : card.map_dumb d ≡ true
  pub mapped : card.mmap d ≡ some old
  pub sized : length old ≡ d.size
  pub wide : m.hdisplay * 4 ≤ d.pitch
  pub high : m.vdisplay * d.pitch ≤ d.size
  pub small : d.size < 2 ^ 32
  pub lit : card.set_crtc crtc fb c.connector_id ≡ true

-- Byte `i` of row `y`: the image at the top left, black around it.
abbrev pub byte_at : (img : List ℕ) (w h hdisplay i y : ℕ) → ℕ
byte_at img w h hdisplay i y =
    if ltb y h && ltb i (min w hdisplay * 4) then get_or img (y * w * 4 + i) 0 else 0

get_or-zeros : (n i : ℕ) → get_or (replicate {A = ℕ} n 0) i 0 ≡ 0
get_or-zeros zero i = refl
get_or-zeros (suc n) zero = refl
get_or-zeros (suc n) (suc i) = get_or-zeros n i

drop-all : (n : ℕ) (xs : List ℕ) → length xs ≤ n → drop n xs ≡ []
drop-all zero [] h = refl
drop-all zero (x ∷ xs) h = absurd (omega arith)
drop-all (suc n) [] h = refl
drop-all (suc n) (x ∷ xs) h = drop-all n xs (omega arith)

-- A file that is long enough fills the buffer.
load_image-whole :
    (read : (k off n : ℕ) → List ℕ) (file junk : List ℕ) (want : ℕ)
    → ReadsFile read file
    → length junk ≡ want
    → want ≤ length file
    → load_image read (some junk) want ≡ some (take want file)
unfolding load_image Option.bind
load_image-whole read file junk want reads e h =
    let got = take want file in
    let none_left : drop (length got) junk ≡ [] =
      drop-all (length got) junk (omega (arith, length-take want file)) in
    rw (load_loop-take read file reads want, none_left) (ap some (append-nil got))

new_buffer_lem :
    (card : Card) (c : Connector) (m : Mode) (crtc fb : ℕ) (d : Dumb) (old : List ℕ)
    → Works card c m crtc fb d old
    → (map : List ℕ) × (new_buffer card m ≡ goes (d, fb, map))
      × (length map ≡ d.size)
      × ((i : ℕ) → i < d.size → get_or map i 0 ≡ 0)
unfolding new_buffer
new_buffer_lem card c m crtc fb d old works =
    let zeros : List ℕ = replicate d.size 0 in
    let (map, ran, same, bytes) =
      blit_lem old 0 zeros 0 d.size (omega (arith, works.sized))
        (omega (arith, length-replicate {A = ℕ} d.size 0)) in
    (
      map,
      rw (works.created, works.added, works.can_map, works.mapped, ran) refl,
      same ∙ works.sized,
      λ i h. bytes i ∙ ground (arith, get_or-zeros d.size i),
    )

-- `main` once the buffer is made, the file placed and a copy kept.
main_still :
    (atoi : List ℕ → ℕ) (malloc : ℕ → Option.Option (List ℕ)) (can_open : List ℕ → Bool)
    (read : (k off n : ℕ) → List ℕ) (card : Card) (args : List (List ℕ)) (c : Connector) (m : Mode)
    (crtc fb : ℕ) (d : Dumb) (cleared map junk base : List ℕ)
    → leb 2 (length args) ≡ true
    → has_arg (codes "--animate") (drop 1 args) ≡ false
    → choose card ≡ goes (c, m, crtc)
    → new_buffer card m ≡ goes (d, fb, cleared)
    → place atoi malloc can_open read card
        (get_or args 1 [])
        (image_w atoi args)
        (image_h atoi args)
        m
        d
        cleared
      ≡ goes map
    → malloc d.size ≡ some junk
    → blit junk 0 map 0 d.size ≡ some base
    → card.set_crtc crtc fb c.connector_id ≡ true
    → main atoi malloc can_open read card args
      ≡ goes (record { mode = m; buffer = d; map = map; base = base; anim = none })
unfolding main Option.bind
main_still atoi malloc can_open read card args c m crtc fb d cleared map junk base two still ch nb
      pl ma bl sc =
    let some_args : ltb (length args) 2 ≡ false = ground arith in
    rw (some_args, ch, nb, pl, ma, bl, still, sc) refl

-- The file is placed when it can be opened.
place_lem :
    (atoi : List ℕ → ℕ) (malloc : ℕ → Option.Option (List ℕ)) (can_open : List ℕ → Bool)
    (read : (k off n : ℕ) → List ℕ) (card : Card) (name file : List ℕ) (w h : ℕ) (m : Mode)
    (d : Dumb) (cleared map : List ℕ)
    → Allocates malloc
    → ReadsFile read file
    → can_open name ≡ true
    → w * h * 4 ≤ length file
    → copy_rows (take (w * h * 4) file) w m.hdisplay m.vdisplay d.pitch h 0 cleared ≡ some map
    → place atoi malloc can_open read card name w h m d cleared ≡ goes map
unfolding place Option.bind
place_lem atoi malloc can_open read card name file w h m d cleared map alloc reads opened enough
      copied =
    let (junk, got, size) = alloc (w * h * 4) in
    rw (opened, got, load_image-whole read file junk (w * h * 4) reads size enough, copied) refl

-- Without `--animate`, when the display works, memory can be allocated and the file is long enough,
-- the program shows the file: each byte of each visible row of the buffer is the one at the same
-- place of the image, as far as image and mode go, and 0 right of the image and below it. The rest
-- of the buffer's size is kept, and nothing is accessed out of range, however short the reads are.
pub main-shows :
    (atoi : List ℕ → ℕ) (malloc : ℕ → Option.Option (List ℕ)) (can_open : List ℕ → Bool)
    (read : (k off n : ℕ) → List ℕ) (card : Card) (args : List (List ℕ)) (file : List ℕ)
    (c : Connector) (m : Mode) (crtc fb : ℕ) (d : Dumb) (old : List ℕ) (i y : ℕ)
    → Allocates malloc
    → ReadsFile read file
    → Works card c m crtc fb d old
    → leb 2 (length args) ≡ true
    → has_arg (codes "--animate") (drop 1 args) ≡ false
    → can_open (get_or args 1 []) ≡ true
    → image_w atoi args * image_h atoi args * 4 ≤ length file
    → i < d.pitch
    → y < m.vdisplay
    → (s : Shown) × (main atoi malloc can_open read card args ≡ goes s)
      × (s.anim ≡ none)
      × (length s.map ≡ d.size)
      × (get_or s.map (y * d.pitch + i) 0
          ≡ byte_at
              (take (image_w atoi args * image_h atoi args * 4) file)
              (image_w atoi args)
              (image_h atoi args)
              m.hdisplay
              i
              y)
main-shows atoi malloc can_open read card args file c m crtc fb d old i y alloc reads works two
      still opened enough a b =
    let w = image_w atoi args in
    let h = image_h atoi args in
    let img = take (w * h * 4) file in
    let (cleared, made, cleared_size, zeros) = new_buffer_lem card c m crtc fb d old works in
    let (map, copied, same, bytes) =
      copy_rows_lem img w m.hdisplay m.vdisplay d.pitch h
        (omega (arith, length-take (w * h * 4) file)) works.wide h 0 cleared (omega arith)
        (omega (arith, cleared_size, works.high)) (omega (arith, cleared_size, works.small)) in
    let (junk, got, junk_size) = alloc d.size in
    let (base, kept, _, _) =
      blit_lem junk 0 map 0 d.size (omega (arith, junk_size)) (omega (arith, same, cleared_size)) in
    let inside : y * d.pitch + i < d.size =
      omega (arith, row_below d.pitch y m.vdisplay b, works.high) in
    (
      record { mode = m; buffer = d; map = map; base = base; anim = none },
      main_still atoi malloc can_open read card args c m crtc fb d cleared map junk base two still
          works.chosen made
          (place_lem atoi malloc can_open read card (get_or args 1 []) file w h m d cleared map
            alloc reads opened enough copied)
          got kept works.lit,
      refl,
      same ∙ cleared_size,
      bytes i y a b ∙ ground (arith, zeros (y * d.pitch + i) inside),
    )
