-- ===== src/Crypto/Replay/Laws.antt =====
-- The window against the plain list of the nonces that were accepted.
use fluxsync.Base.{
  ℕ, ◌+◌, ◌-◌, ◌≤◌, ◌<◌, max, ◌≡◌, refl, ◌∙◌, ◌⊎◌, Bool, true, false, not, ◌&&◌, ◌||◌, List, [],
  ◌∷◌, arith, ltb, leb, ◌==◌, if◌then◌else◌, is_empty, length, if_split, inl, inr,
}
use fluxsync.Crypto.Replay.Bits.{
  bit-zeros, bit-set_bit, length-set_bit, length-shift_left, bit-shift_left, length-one, bit-one,
}
use fluxsync.Crypto.Replay.{
  replay_window, Bitmap, bit, set_bit, shift_left, none_set, one, ReplayWindow, default, is_fresh,
  accept,
}

abbrev pub is_in : ℕ → List ℕ → Bool
is_in n [] = false
is_in n (m ∷ ns) = m == n || is_in n ns

-- The highest of the nonces, 0 for none.
abbrev pub top : List ℕ → ℕ
top [] = 0
top (n ∷ ns) = max n (top ns)

-- The nonces are accepted from the last of the list to the first.
abbrev pub accept_all : List ℕ → ReplayWindow
accept_all [] = default
accept_all (n ∷ ns) = accept (accept_all ns) n

-- The window stands for the list: its top, and for each bit whether that nonce is in the list.
pub record Stands (w : ReplayWindow) (ns : List ℕ) : Type 0 where
  pub started : w.started ≡ not (is_empty ns)
  pub highest : w.highest ≡ top ns
  pub width : length w.bitmap ≡ 64
  pub bits : (i : ℕ) → i < 64 → bit i w.bitmap ≡ (leb i w.highest && is_in (w.highest - i) ns)

is_in-top : (n : ℕ) (ns : List ℕ) → top ns < n → is_in n ns ≡ false
is_in-top n [] lt = refl
is_in-top n (m ∷ ns) lt = ground (arith, is_in-top n ns (omega arith))

is_in_none : (n : ℕ) (ns : List ℕ) → is_empty ns ≡ true → is_in n ns ≡ false
is_in_none n [] h = refl
is_in_none n (m ∷ ns) h = ground arith

pub Stands-default : Stands default []
unfolding default none_set
Stands-default = record {
  started = refl;
  highest = refl;
  width = refl;
  bits = λ i lt. ground (arith, bit-zeros i 64);
}

Stands-one :
    (n : ℕ) (ns : List ℕ) (on : Bool)
    → on ≡ true
    → (is_empty ns ≡ true) ⊎ (top ns + 64 ≤ n)
    → Stands (record { highest = n; bitmap = one; started = on }) (n ∷ ns)
Stands-one n ns on is_on h = record {
  started = is_on;
  highest = top_new;
  width = length-one;
  bits = bits_new;
}
  where
    top_new : n ≡ top (n ∷ ns)
    top_new = ground arith

    older : (i : ℕ) → i < 64 → is_in (n - i) ns ≡ false
    older i lt = ground (arith, is_in-top (n - i) ns)

    bits_new : (i : ℕ) → i < 64 → bit i one ≡ (leb i n && is_in (n - i) (n ∷ ns))
    bits_new i lt = ground (arith, bit-one i, older i lt)

Stands-shift :
    (w : ReplayWindow) (n : ℕ) (ns : List ℕ)
    → Stands w ns
    → w.started ≡ true
    → top ns < n
    → Stands
        (record w { highest = n; bitmap = set_bit 0 (shift_left (n - w.highest) w.bitmap) })
        (n ∷ ns)
Stands-shift w n ns h on lt = record {
  started = on;
  highest = top_new;
  width = length-set_bit 0 shifted ∙ length-shift_left (n - w.highest) w.bitmap ∙ h.width;
  bits = bits_new;
}
  where
    shifted : Bitmap
    shifted = shift_left (n - w.highest) w.bitmap

    top_new : n ≡ top (n ∷ ns)
    top_new = omega arith

    -- Above the old top nothing was accepted, from there down the bits move with their nonces.
    newer : (i : ℕ) → i < n - w.highest → is_in (n - i) ns ≡ false
    newer i above = is_in-top (n - i) ns (omega (arith, h.highest))

    same : (i : ℕ) → n - w.highest ≤ i → w.highest - (i - (n - w.highest)) ≡ n - i
    same i far = omega (arith, h.highest)

    old_bit :
        (i : ℕ)
        → i < 64
        → n - w.highest ≤ i
        → bit (i - (n - w.highest)) w.bitmap ≡ (leb i n && is_in (n - i) ns)
    old_bit i below far =
        h.bits (i - (n - w.highest)) (omega arith) ∙ ground (arith, same i far, h.highest)

    bits_new : (i : ℕ) → i < 64 → bit i (set_bit 0 shifted) ≡ (leb i n && is_in (n - i) (n ∷ ns))
    bits_new i below = ground (
      arith,
      bit-set_bit i 0 shifted,
      length-shift_left (n - w.highest) w.bitmap,
      bit-shift_left i (n - w.highest) w.bitmap (omega (arith, h.width)),
      old_bit i below,
      newer i,
      same i,
      h.highest,
    )

Stands-set :
    (w : ReplayWindow) (n : ℕ) (ns : List ℕ)
    → Stands w ns
    → w.started ≡ true
    → n ≤ top ns
    → Stands (record w { bitmap = set_bit (w.highest - n) w.bitmap }) (n ∷ ns)
Stands-set w n ns h on le = record {
  started = on;
  highest = h.highest ∙ top_same;
  width = length-set_bit (w.highest - n) w.bitmap ∙ h.width;
  bits = bits_new;
}
  where
    top_same : top ns ≡ top (n ∷ ns)
    top_same = omega arith

    bits_new :
        (i : ℕ)
        → i < 64
        → bit i (set_bit (w.highest - n) w.bitmap)
          ≡ (leb i w.highest && is_in (w.highest - i) (n ∷ ns))
    bits_new i below =
        ground (arith, bit-set_bit i (w.highest - n) w.bitmap, h.bits i below, h.width, h.highest)

Stands-newer :
    (w : ReplayWindow) (n : ℕ) (ns : List ℕ)
    → Stands w ns
    → w.started ≡ true
    → top ns < n
    → Stands
        (record w {
          highest = n;
          bitmap =
              if leb replay_window (n - w.highest)
              then one
              else set_bit 0 (shift_left (n - w.highest) w.bitmap);
        })
        (n ∷ ns)
Stands-newer w n ns h on lt =
    if_split (λ (b : Bitmap). Stands (record w { highest = n; bitmap = b }) (n ∷ ns))
      (leb replay_window (n - w.highest)) one (set_bit 0 (shift_left (n - w.highest) w.bitmap))
      (λ far. Stands-one n ns w.started on (inr (ground (arith, h.highest))))
      (λ near. Stands-shift w n ns h on lt)

-- A nonce too old for the window adds nothing to what the bits say.
Stands-older :
    (w : ReplayWindow) (n : ℕ) (ns : List ℕ)
    → Stands w ns
    → w.started ≡ true
    → n + 64 ≤ top ns
    → Stands w (n ∷ ns)
Stands-older w n ns h on le = record {
  started = on;
  highest = omega (arith, h.highest);
  width = h.width;
  bits = λ i lt. h.bits i lt ∙ ground (arith, h.highest);
}

pub Stands-accept :
    (w : ReplayWindow) (n : ℕ) (ns : List ℕ) → Stands w ns → Stands (accept w n) (n ∷ ns)
unfolding accept
Stands-accept w n ns h =
    if_split here (not w.started) first later
      (λ off. Stands-one n ns true refl (inl (ground (arith, h.started))))
      (λ on.
        if_split here (ltb w.highest n) newer older
          (λ above. Stands-newer w n ns h (is_on on) (ground (arith, h.highest)))
          (λ below.
            if_split here (ltb (w.highest - n) replay_window) marked w
              (λ near. Stands-set w n ns h (is_on on) (ground (arith, h.highest)))
              (λ far. Stands-older w n ns h (is_on on) (ground (arith, h.highest)))))
  where
    here : ReplayWindow → Type 0
    here x = Stands x (n ∷ ns)

    is_on : not w.started ≡ false → w.started ≡ true
    is_on on = ground arith

    first : ReplayWindow
    first = record { highest = n; bitmap = one; started = true }

    newer : ReplayWindow
    newer = record w {
      highest = n;
      bitmap =
          if leb replay_window (n - w.highest)
          then one
          else set_bit 0 (shift_left (n - w.highest) w.bitmap);
    }

    marked : ReplayWindow
    marked = record w { bitmap = set_bit (w.highest - n) w.bitmap }

    older : ReplayWindow
    older = if ltb (w.highest - n) replay_window then marked else w

    later : ReplayWindow
    later = if ltb w.highest n then newer else older

Stands-accept_all : (ns : List ℕ) → Stands (accept_all ns) ns
Stands-accept_all [] = Stands-default
Stands-accept_all (n ∷ ns) = Stands-accept (accept_all ns) n ns (Stands-accept_all ns)

pub Stands-is_fresh :
    (w : ReplayWindow) (n : ℕ) (ns : List ℕ)
    → Stands w ns
    → is_fresh w n ≡ (not (is_in n ns) && (is_empty ns || ltb (top ns) (n + 64)))
unfolding is_fresh
Stands-is_fresh w n ns h =
    ground
      (arith, h.started, h.highest, is_in-top n ns, h.bits (w.highest - n), back, is_in_none n ns)
  where
    back : n ≤ w.highest → w.highest - (w.highest - n) ≡ n
    back le = omega arith

-- After any sequence of accepted nonces, the window lets a nonce through exactly if it is none of
-- them and less than 64 behind the highest of them.
pub is_fresh_exact :
    (ns : List ℕ) (n : ℕ)
    → is_fresh (accept_all ns) n ≡ (not (is_in n ns) && (is_empty ns || ltb (top ns) (n + 64)))
is_fresh_exact ns n = Stands-is_fresh (accept_all ns) n ns (Stands-accept_all ns)
