-- ===== src/ProxyServer/Shutdown/Covers.antt =====
-- The numbers of the nodes that the loop of the destructor has yet to visit.
use proxy_cache_server.Prelude.{
  ℕ, ◌≡◌, refl, inl, inr, Bool, true, false, none, some, List, [], ◌∷◌, arith, ◌==◌, ◌||◌,
  Bool-cases, Option-cases, All,
}
use proxy_cache_server.ProxyServer.{Handle, Server, find_handle, update, joinable}
use proxy_cache_server.ProxyServer.Shutdown.{ids, join_left, any_joinable}
use proxy_cache_server.ProxyServer.Shutdown.Kept.{IsDistinct, update-IsDistinct}

-- The destructor has yet to visit the node of a number.
unfoldable pub visits : ℕ → List ℕ → Bool
visits i [] = false
visits i (j ∷ is) = j == i || visits i is

-- It visits every node whose thread can be joined.
abbrev pub Covers : List ℕ → List Handle → Type 0
Covers is = All (λ h. h.is_joinable ≡ true → visits h.id is ≡ true)

visits-cons : (i j : ℕ) (is : List ℕ) → visits i is ≡ true → visits i (j ∷ is) ≡ true
unfolding visits
visits-cons i j is e = ground arith

pub Covers-weaken : (j : ℕ) (is : List ℕ) (hs : List Handle) → Covers is hs → Covers (j ∷ is) hs
Covers-weaken j is [] c = tt
Covers-weaken j is (h ∷ hs) (covered, c) =
    (λ can. visits-cons h.id j is (covered can), Covers-weaken j is hs c)

pub ids-Covers : (hs : List Handle) → Covers (ids hs) hs
unfolding visits
ids-Covers [] = tt
ids-Covers (h ∷ hs) = (λ can. ground arith, Covers-weaken h.id (ids hs) hs (ids-Covers hs))

pub Covers-finish :
    (i : ℕ) (is : List ℕ) (hs : List Handle)
    → Covers is hs
    → Covers is (update i (λ h. record h { has_finished = true }) hs)
unfolding update
Covers-finish i is [] c = tt
Covers-finish i is (h ∷ hs) (covered, c) = elim (Bool-cases (h.id == i)) [
  | inl here ↦ rw (here, update) (covered, c)
  | inr other ↦ rw (other, update) (covered, Covers-finish i is hs c)
]

visits_rest :
    (h : Handle) (i : ℕ) (is : List ℕ)
    → (h.id == i) ≡ false
    → (h.is_joinable ≡ true → visits h.id (i ∷ is) ≡ true)
    → h.is_joinable ≡ true
    → visits h.id is ≡ true
unfolding visits
visits_rest h i is other covered can = let there = covered can in ground arith

pub Covers-absent :
    (i : ℕ) (is : List ℕ) (hs : List Handle)
    → find_handle i hs ≡ none
    → Covers (i ∷ is) hs
    → Covers is hs
unfolding find_handle
Covers-absent i is [] absent c = tt
Covers-absent i is (h ∷ hs) absent (covered, c) =
    let other : (h.id == i) ≡ false = ground arith in
    (visits_rest h i is other covered, Covers-absent i is hs (ground arith) c)

pub Covers-joined :
    (i : ℕ) (is : List ℕ) (hs : List Handle)
    → IsDistinct hs
    → Covers (i ∷ is) hs
    → Covers is (update i (λ h. record h { is_joinable = false }) hs)
unfolding update
Covers-joined i is [] d c = tt
Covers-joined i is (h ∷ hs) (absent, d) (covered, c) = elim (Bool-cases (h.id == i)) [
  | inl here ↦
      let same : h.id ≡ i = ground arith in
      rw (here, update) (λ can. cc, Covers-absent i is hs (rw same at absent) c)
  | inr other ↦ rw (other, update) (visits_rest h i is other covered, Covers-joined i is hs d c)
]

pub Covers-idle :
    (i : ℕ) (is : List ℕ) (hs : List Handle)
    → IsDistinct hs
    → joinable (find_handle i hs) ≡ false
    → Covers (i ∷ is) hs
    → Covers is hs
unfolding find_handle
Covers-idle i is [] d idle c = tt
Covers-idle i is (h ∷ hs) (absent, d) idle (covered, c) = elim (Bool-cases (h.id == i)) [
  | inl here ↦
      let same : h.id ≡ i = ground arith in
      let cannot : h.is_joinable ≡ false = ground arith in
      (λ can. absurd cc, Covers-absent i is hs (rw same at absent) c)
  | inr other ↦ (visits_rest h i is other covered, Covers-idle i is hs d (ground arith) c)
]

pub Covers-any_joinable : (hs : List Handle) → Covers [] hs → any_joinable hs ≡ false
unfolding any_joinable visits
Covers-any_joinable [] c = refl
Covers-any_joinable (h ∷ hs) (covered, c) = elim (Bool-cases h.is_joinable) [
  | inl can ↦ absurd (let there = covered can in cc)
  | inr cannot ↦ ground (arith, Covers-any_joinable hs c)
]

-- What a visit of the destructor changes.
pub join_left-Covers :
    (i : ℕ) (is : List ℕ) (s s' : Server)
    → join_left i s ≡ some s'
    → IsDistinct s.client_threads
    → Covers (i ∷ is) s.client_threads
    → Covers is s'.client_threads
      × IsDistinct s'.client_threads
      × (s'.terminated ≡ s.terminated)
      × (s'.reaping ≡ s.reaping)
unfolding join_left
join_left-Covers i is s s' e d c = elim (Option-cases (find_handle i s.client_threads)) [
  | inl missing ↦
      let same : s ≡ s' = ground arith in
      rw (← same) (Covers-absent i is s.client_threads missing c, d, refl, refl)
  | inr (h, found) ↦ elim (Bool-cases h.is_joinable) [
    | inr idle ↦
        let same : s ≡ s' = ground arith in
        rw (← same) (Covers-idle i is s.client_threads d (rw found idle) c, d, refl, refl)
    | inl can ↦ elim (Bool-cases h.has_finished) [
      | inr runs ↦ absurd (ground arith)
      | inl over ↦
          let hs = update i (λ g. record g { is_joinable = false }) s.client_threads in
          let same : record s { client_threads = hs } ≡ s' = ground arith in
          rw (← same) (
            Covers-joined i is s.client_threads d c,
            update-IsDistinct i _ s.client_threads (λ h. refl) d,
            refl,
            refl,
          )
    ]
  ]
]
