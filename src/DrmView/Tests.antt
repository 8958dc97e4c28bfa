-- ===== src/DrmView/Tests.antt =====
-- A small display, and the theorems of the viewer at it.
use kmm_yocto.Base.{
  ℕ, ◌+◌, ◌*◌, ◌≡◌, refl, true, Option, none, some, List, [], ◌∷◌, arith, if◌then◌else◌, ◌==◌,
  length, get_or, take, drop, replicate, length-replicate, codes, has_arg, same_text, inr,
}
use kmm_yocto.WlImageView.Load.{ReadsFile}
use kmm_yocto.DrmView.{
  Mode, Connector, Dumb, Card, flipped, late, busy, Anim, usable, find_connector, first_possible,
  pick_crtc, frame, frames,
}
use kmm_yocto.DrmView.Start.{goes, choose, main, Shown}
use kmm_yocto.DrmView.Picture.{Works, Allocates, main-shows, byte_at}
use kmm_yocto.DrmView.Flips.{Fits, IsApart, Shows, shown_map, frames-Shows, late-tears}

abbrev mode : Mode
mode = record { hdisplay = 3; vdisplay = 2 }

abbrev screen : Connector
screen = record {
  connector_id = 31;
  connection = 1;
  modes = mode ∷ [];
  encoder_id = 30;
  encoders = [];
}

abbrev connectors : ℕ → Option Connector
connectors id =
    if id == 31
    then some screen
    else (if id == 40 then some (record screen { connection = 2 }) else none)

found : find_connector connectors (40 ∷ 7 ∷ 31 ∷ []) ≡ some (screen, mode)
unfolding find_connector usable
found = refl

-- No current CRTC: the first one that the mask allows.
second_crtc : pick_crtc (some (record { crtc_id = 0; possible_crtcs = 2 })) (50 ∷ 51 ∷ []) ≡ 51
unfolding pick_crtc first_possible
second_crtc = refl

abbrev buffer : Dumb
buffer = record { pitch = 16; size = 32; handle = 1 }

abbrev memory_of : ℕ → List ℕ
memory_of n = replicate n 255

abbrev card : Card
card = record {
  opened = true;
  resources = some (record { connectors = 40 ∷ 31 ∷ []; crtcs = 50 ∷ 51 ∷ [] });
  get_connector = connectors;
  get_encoder = λ id. some (record { crtc_id = 51; possible_crtcs = 3 });
  create_dumb = λ k w h. some buffer;
  add_fb = λ d. some 60;
  map_dumb = λ d. true;
  mmap = λ d. some (memory_of 32);
  set_crtc = λ crtc fb connector. true;
}

-- A file of two pixels, beside and below which there is room.
abbrev file : List ℕ
file = 1 ∷ 2 ∷ 3 ∷ 4 ∷ 5 ∷ 6 ∷ 7 ∷ 8 ∷ []

abbrev reader : (k off n : ℕ) → List ℕ
reader k off n = take n (drop off file)

reader-ReadsFile : ReadsFile reader file
reader-ReadsFile k off n h = (n, h, omega arith, refl)

abbrev some_memory : ℕ → Option (List ℕ)
some_memory n = some (memory_of n)

some_memory-Allocates : Allocates some_memory
some_memory-Allocates n = (memory_of n, refl, length-replicate n 255)

chosen : choose card ≡ goes (screen, mode, 51)
unfolding choose find_connector usable pick_crtc
chosen = refl

card-Works : Works card screen mode 51 60 buffer (memory_of 32)
card-Works = record {
  chosen = chosen;
  created = refl;
  added = refl;
  can_map = refl;
  mapped = refl;
  sized = refl;
  wide = omega arith;
  high = omega arith;
  small = omega arith;
  lit = refl;
}

abbrev args : List (List ℕ)
args = codes "drm-image-view" ∷ codes "f" ∷ (2 ∷ []) ∷ (1 ∷ []) ∷ []

abbrev number : List ℕ → ℕ
number s = get_or s 0 0

main-shows_example :
    (s : Shown) × (main number some_memory (λ name. true) reader card args ≡ goes s)
    × (s.anim ≡ none)
    × (length s.map ≡ 32)
    × (get_or s.map (0 * 16 + 5) 0 ≡ byte_at (take 8 file) 2 1 3 5 0)
unfolding has_arg same_text
main-shows_example =
    main-shows number some_memory (λ name. true) reader card args file screen mode 51 60 buffer
      (memory_of 32) 5 0 some_memory-Allocates reader-ReadsFile card-Works refl refl refl
      (omega arith) (omega arith) (omega arith)

abbrev base : List ℕ
base = replicate 32 9

base-Fits : Fits mode buffer base
base-Fits = record {
  wide = omega arith;
  high = omega arith;
  small = omega arith;
  whole = refl;
  some_columns = omega arith;
}

abbrev start : Anim
start = record { front = base; other = base; back = 1; flips = 0; col = 0; shown = 0 }

frames-Shows_example :
    (a : Anim) × (frames mode buffer base (flipped ∷ busy ∷ flipped ∷ []) start ≡ some a)
    × IsApart a
    × (a.flips ≡ 0 + 2)
    × Shows mode buffer base base-Fits base (some 1) (shown_map a)
frames-Shows_example =
    frames-Shows mode buffer base base-Fits (flipped ∷ busy ∷ flipped ∷ []) start
      (tt, (tt, (tt, tt))) (refl, refl) (inr (refl, refl))

late-tears_example :
    (a : Anim) × (frame mode buffer base late start ≡ some a)
    × (a.back ≡ a.shown)
    × (a.flips ≡ 0 + 1)
late-tears_example = late-tears mode buffer base base-Fits start (refl, refl) (inr (refl, refl))
