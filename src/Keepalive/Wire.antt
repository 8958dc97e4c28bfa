-- ===== src/Keepalive/Wire.antt =====
-- The 16-byte keepalive message, as the comment at the head of mcore-keepalive.c lays it out.
use kmm_yocto.Base.{
  le32_at, ℕ, ◌^◌, ◌<◌, ◌≡◌, refl, sym, ap, ◌∙◌, ◌↔◌, true, List, ◌++◌, arith, length, reads,
  reads-length, byte-get_or, IsBytes, le16, le32,
}
use kmm_yocto.Keepalive.{well_formed, mcka_magic, mcka_proto, msg_size}

-- The message that the M-core sends.
abbrev pub wire : ℕ → ℕ → List ℕ
wire up seq = le32 mcka_magic ++ le16 mcka_proto ++ le16 msg_size ++ le32 up ++ le32 seq

-- What `mcka_cb` reads back from the two fields that it keeps.
pub le32_at-wire :
    (up seq : ℕ)
    → up < 2 ^ 32
    → seq < 2 ^ 32
    → (le32_at (wire up seq) 8 ≡ up) × (le32_at (wire up seq) 12 ≡ seq)
le32_at-wire up seq hu hs = omega arith

pub well_formed-wire : (up seq : ℕ) → well_formed (wire up seq) ≡ true
unfolding well_formed
well_formed-wire up seq = refl

module _ (m : List ℕ) (b : IsBytes m) where
  read_back : well_formed m ≡ true → reads m 0 16 ≡ wire (le32_at m 8) (le32_at m 12)
  unfolding well_formed
  read_back h = ground (
    arith,
    byte-get_or m 0 b,
    byte-get_or m 1 b,
    byte-get_or m 2 b,
    byte-get_or m 3 b,
    byte-get_or m 4 b,
    byte-get_or m 5 b,
    byte-get_or m 6 b,
    byte-get_or m 7 b,
    byte-get_or m 8 b,
    byte-get_or m 9 b,
    byte-get_or m 10 b,
    byte-get_or m 11 b,
    byte-get_or m 12 b,
    byte-get_or m 13 b,
    byte-get_or m 14 b,
    byte-get_or m 15 b,
  )

  length_of : well_formed m ≡ true → length m ≡ 16
  unfolding well_formed
  length_of h = ground arith

-- A payload of bytes passes the test of `mcka_cb` exactly when it is, byte for byte, a keepalive
-- message: the magic, protocol 1, length 16, and any uptime and sequence number.
pub well_formed_iff :
    (m : List ℕ) → IsBytes m → (well_formed m ≡ true) ↔ ((up : ℕ) × (seq : ℕ) × (m ≡ wire up seq))
well_formed_iff m b = (
  λ h. (
    le32_at m 8,
    le32_at m 12,
    sym (reads-length m) ∙ ap (reads m 0) (length_of m b h) ∙ read_back m b h,
  ),
  λ w. rw w.2 (well_formed-wire w.0 w.1),
)
