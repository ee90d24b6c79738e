-- ===== src/CacheManager/Slots/Holds.antt =====
-- A slot that is the only one of its key, not far behind the first.
use proxy_cache_server.Prelude.{
  ℕ, suc, ◌+◌, ◌≤◌, ◌<◌, ◌≡◌, ◌≢◌, refl, sym, ap, ◌∙◌, inl, inr, true, false, ◌&&◌, List, [], ◌∷◌,
  ◌++◌, none, some, leb, arith, length, length-append, append_assoc, All, Bool-cases, Option-cases,
}
use proxy_cache_server.Text.{Bytes, bytes_eq}
use proxy_cache_server.Text.Equality.{bytes_eq_refl, bytes_eq_ne}
use proxy_cache_server.CacheManager.Slots.{Slot, find_live, retired, retire, last_slot, make_room}
use proxy_cache_server.CacheManager.Slots.Rows.{last_slot_snoc}

-- No slot has the key.
abbrev pub Others : Bytes → List Slot → Type 0
Others key = All (λ t. t.key ≢ key)

-- The slot is live, the only one of its key, and behind at most `n` others.
pub record Holds (s : Slot) (n : ℕ) (row : List Slot) : Type 0 where
  pub front : List Slot
  pub back : List Slot
  pub split : row ≡ front ++ s ∷ back
  pub near : length front ≤ n
  pub before : Others s.key front
  pub behind : Others s.key back
  pub live : s.live ≡ true

other_key : (s t : Slot) → t.key ≢ s.key → (t.live && bytes_eq t.key s.key) ≡ false
other_key s t ne = let e = bytes_eq_ne t.key s.key ne in ground arith

find_live-front :
    (s : Slot) (front back : List Slot)
    → Others s.key front
    → s.live ≡ true
    → find_live s.key (front ++ s ∷ back) ≡ some s
unfolding find_live
find_live-front s [] back o live =
    let here : (s.live && bytes_eq s.key s.key) ≡ true = ground (arith, bytes_eq_refl s.key) in
    rw here refl
find_live-front s (t ∷ front) back (ne, o) live =
    rw (other_key s t ne) (find_live-front s front back o live)

pub find_live-Holds :
    (s : Slot) (n : ℕ) (row : List Slot) → Holds s n row → find_live s.key row ≡ some s
find_live-Holds s n row h =
    ap (find_live s.key) h.split ∙ find_live-front s h.front h.back h.before h.live

retire-Others : (key k : Bytes) (row : List Slot) → Others key row → Others key (retire k row)
unfolding retired
retire-Others key k [] o = tt
retire-Others key k (t ∷ row) (ne, o) = (λ e. ground arith, retire-Others key k row o)

retire-append : (k : Bytes) (a b : List Slot) → retire k (a ++ b) ≡ retire k a ++ retire k b
retire-append k [] b = refl
retire-append k (t ∷ a) b = ap (◌∷◌ (retired k t)) (retire-append k a b)

length-retire : (k : Bytes) (a : List Slot) → length (retire k a) ≡ length a
length-retire k [] = refl
length-retire k (t ∷ a) = ap suc (length-retire k a)

pub retire-Holds :
    (s : Slot) (n : ℕ) (k : Bytes) (row : List Slot)
    → bytes_eq s.key k ≡ false
    → Holds s n row
    → Holds s n (retire k row)
unfolding retired
retire-Holds s n k row other h =
    let kept : retired k s ≡ s = rw other refl in
    record {
      front = retire k h.front;
      back = retire k h.back;
      split =
          ap (retire k) h.split
          ∙ retire-append k h.front (s ∷ h.back)
          ∙ ap (λ t. retire k h.front ++ t ∷ retire k h.back) kept;
      near = omega (arith, length-retire k h.front, h.near);
      before = retire-Others s.key k h.front h.before;
      behind = retire-Others s.key k h.back h.behind;
      live = h.live;
    }

last_slot_split :
    (row : List Slot) (l : Slot) (rest : List Slot)
    → last_slot row ≡ some (l, rest)
    → row ≡ rest ++ l ∷ []
unfolding last_slot
last_slot_split [] l rest e = cc
last_slot_split (t ∷ []) l rest e = ground arith
last_slot_split (t ∷ u ∷ row) l rest e = elim (Option-cases (last_slot (u ∷ row))) [
  | inl empty ↦ absurd (unfold last_slot in ground arith)
  | inr (a, popped) ↦ let shorter = last_slot_split (u ∷ row) a.0 a.1 popped in ground arith
]

Others-snoc :
    (key : Bytes) (rest : List Slot) (l : Slot)
    → Others key (rest ++ l ∷ [])
    → Others key rest × (l.key ≢ key)
Others-snoc key [] l (ne, o) = (tt, ne)
Others-snoc key (t ∷ rest) l (ne, o) =
    let (others, last) = Others-snoc key rest l o in ((ne, others), last)

last_slot-none : (row : List Slot) → last_slot row ≡ none → row ≡ []
unfolding last_slot
last_slot-none [] e = refl
last_slot-none (t ∷ row) e = absurd (ground arith)

-- There is room, or another slot is dropped.
pub make_room-Holds :
    (s : Slot) (n capacity : ℕ) (row : List Slot)
    → n + 1 < capacity
    → Holds s n row
    → Holds s n (make_room capacity row)
unfolding make_room
make_room-Holds s n capacity row small h = elim (Option-cases (last_slot h.back)) [
  | inl empty ↦
      let alone : row ≡ h.front ++ s ∷ [] =
        h.split ∙ ap (λ b. h.front ++ s ∷ b) (last_slot-none h.back empty) in
      let last = ap last_slot alone ∙ last_slot_snoc h.front s in
      let size = ap length alone ∙ length-append h.front (s ∷ []) in
      let room : leb capacity (length row) ≡ false = ground (arith, h.near) in
      rw (last, make_room, room) h
  | inr ((l, b), popped) ↦
      let ends = last_slot_split h.back l b popped in
      let split : row ≡ (h.front ++ s ∷ b) ++ l ∷ [] =
        h.split ∙ ap (λ t. h.front ++ s ∷ t) ends ∙ sym (append_assoc h.front (s ∷ b) (l ∷ [])) in
      let last = ap last_slot split ∙ last_slot_snoc (h.front ++ s ∷ b) l in
      let (others, other) = Others-snoc s.key b l (rw ends at h.behind) in
      let kept : Holds s n (h.front ++ s ∷ b) = record {
        front = h.front;
        back = b;
        split = refl;
        near = h.near;
        before = h.before;
        behind = others;
        live = h.live;
      } in
      elim (Bool-cases (leb capacity (length row))) [
        | inr room ↦ rw (last, make_room, room) h
        | inl full ↦
            rw (last, make_room, full)
              (retire-Holds s n l.key (h.front ++ s ∷ b)
                (bytes_eq_ne s.key l.key (λ e. other (sym e))) kept)
      ]
]

pub Holds-le : (s : Slot) (m n : ℕ) (row : List Slot) → m ≤ n → Holds s m row → Holds s n row
Holds-le s m n row le h = record {
  front = h.front;
  back = h.back;
  split = h.split;
  near = omega (arith, h.near);
  before = h.before;
  behind = h.behind;
  live = h.live;
}

pub Holds-weaken : (s : Slot) (n : ℕ) (row : List Slot) → Holds s n row → Holds s (suc n) row
Holds-weaken s n row h = Holds-le s n (suc n) row (omega arith) h

-- Another slot is put before the row.
pub Holds-cons :
    (s t : Slot) (n : ℕ) (row : List Slot)
    → t.key ≢ s.key
    → Holds s n row
    → Holds s (suc n) (t ∷ row)
Holds-cons s t n row other h = record {
  front = t ∷ h.front;
  back = h.back;
  split = ap (◌∷◌ t) h.split;
  near = omega (arith, h.near);
  before = (other, h.before);
  behind = h.behind;
  live = h.live;
}
