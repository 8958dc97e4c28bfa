-- ===== src/DrmView/Start.antt =====
-- `main` up to the animation.
use mathlib.Core.Option
use kmm_yocto.Base.{
  ℕ, ◌*◌, Bool, true, false, Option, none, some, List, [], ltb, leb, ◌==◌, if◌then◌else◌, length,
  get_or, drop, replicate, blit, codes, has_arg,
}
use kmm_yocto.DrmView.{
  Mode, Connector, Dumb, Card, Anim, find_connector, encoder_of, pick_crtc, copy_rows, load_image,
}

-- The program ends with a code, makes an access that C leaves undefined, or goes on.
pub data Run {ℓ} (A : Type ℓ) : Type ℓ where
  exits : ℕ → Run A
  crashes : Run A
  goes : A → Run A

infixl 5 ◌>>=◌ ◌>>◌
abbrev pub ◌>>=◌ {ℓ κ} : {A : Type ℓ} {B : Type κ} → Run A → (A → Run B) → Run B
exits code >>= f = exits code
crashes >>= f = crashes
goes a >>= f = f a

abbrev pub ◌>>◌ {ℓ} : {B : Type ℓ} → Run (Unit {0}) → Run B → Run B
m >> k = m >>= λ _. k

-- `if (!ok) { perror(...); return 1; }`
abbrev pub require : Bool → Run (Unit {0})
require true = goes tt
require false = exits 1

abbrev pub present {ℓ} : {A : Type ℓ} → Option A → Run A
present none = exits 1
present (some a) = goes a

abbrev pub memory {ℓ} : {A : Type ℓ} → Option A → Run A
memory none = crashes
memory (some a) = goes a

-- The connector, its mode and the CRTC.
unfoldable pub choose : Card → Run (Connector × Mode × ℕ)
choose card = do
  require card.opened
  res ← present card.resources
  found ← present (find_connector card.get_connector res.connectors)
  let crtc = pick_crtc (card.get_encoder (encoder_of found.0)) res.crtcs
  if crtc == 0 then exits 1 else goes (found.0, found.1, crtc)

-- The first dumb buffer, cleared, with its frame buffer.
unfoldable pub new_buffer : Card → Mode → Run (Dumb × ℕ × List ℕ)
new_buffer card m = do
  d ← present (card.create_dumb 0 m.hdisplay m.vdisplay)
  fb ← present (card.add_fb d)
  require (card.map_dumb d)
  map ← present (card.mmap d)
  cleared ← memory (blit map 0 (replicate d.size 0) 0 d.size)
  goes (d, fb, cleared)

-- The second buffer. A failing `mmap` is not noticed, and the copy then fails.
unfoldable pub second_buffer : Card → Mode → (base : List ℕ) → Run (List ℕ)
unfolding Option.bind
second_buffer card m base = do
  d ← present (card.create_dumb 1 m.hdisplay m.vdisplay)
  memory (Option.bind (card.mmap d) (λ map. blit map 0 base 0 d.size))

-- The size of the image.
abbrev pub image_w : (atoi : List ℕ → ℕ) (args : List (List ℕ)) → ℕ
image_w atoi args = if leb 4 (length args) then atoi (get_or args 2 []) else 800

abbrev pub image_h : (atoi : List ℕ → ℕ) (args : List (List ℕ)) → ℕ
image_h atoi args = if leb 4 (length args) then atoi (get_or args 3 []) else 480

-- What stands on the screen when the program waits or starts to animate.
pub record Shown : Type 0 where
  pub mode : Mode
  pub buffer : Dumb
  pub map : List ℕ
  pub base : List ℕ
  pub anim : Option Anim

module _ (atoi : List ℕ → ℕ) (malloc : ℕ → Option (List ℕ)) (can_open : List ℕ → Bool)
    (read : (k off n : ℕ) → List ℕ) (card : Card) where
  -- The file is placed at the top left, if it can be opened.
  unfoldable pub place : (file : List ℕ) (w h : ℕ) → Mode → Dumb → List ℕ → Run (List ℕ)
  unfolding Option.bind
  place file w h m d map =
      if can_open file
      then memory (
          Option.bind (load_image read (malloc (w * h * 4)) (w * h * 4))
            (λ img. copy_rows img w m.hdisplay m.vdisplay d.pitch h 0 map))
      else goes map

  unfoldable pub main : (args : List (List ℕ)) → Run Shown
  unfolding Option.bind
  main args = if ltb (length args) 2 then exits 2 else do
    let w = image_w atoi args
    let h = image_h atoi args
    chosen ← choose card
    made ← new_buffer card chosen.1
    map ← place (get_or args 1 []) w h chosen.1 made.0 made.2
    base ← memory (Option.bind (malloc made.0.size) (λ junk. blit junk 0 map 0 made.0.size))
    let animate = has_arg (codes "--animate") (drop 1 args)
    other ← if animate then second_buffer card chosen.1 base else goes []
    require (card.set_crtc chosen.2 made.1 chosen.0.connector_id)
    let start : Anim = record {
      front = map;
      other = other;
      back = 1;
      flips = 0;
      col = 0;
      shown = 0;
    }
    let shows : Shown = record {
      mode = chosen.1;
      buffer = made.0;
      map = map;
      base = base;
      anim = if animate then some start else none;
    }
    goes shows
