-- ===== src/ProxyServer/Timely.antt =====
-- Runs in which no thread is over before start() has moved it into its node.
pub mod Runs
use proxy_cache_server.Prelude.{
  ℕ, suc, ◌+◌, ◌≤◌, ◌<◌, ◌≡◌, ◌≢◌, refl, sym, ap, ◌∙◌, ◌⊎◌, inl, inr, Bool, true, false, Option,
  none, some, is_some, List, [], ◌∷◌, ◌++◌, arith, ◌==◌, ◌||◌, ◌&&◌, if◌then◌else◌, Bool-cases,
  Option-cases, List-cases, All, All-append, All-map,
}
use proxy_cache_server.ProxyServer.{
  Handle, Server, new_server, find_handle, update, erase_handle, finished, joinable, accept_client,
  assign_thread, finish_client, take_finished, erase_thread, Action, accepts, assigns, finishes,
  takes, erases, act, run,
}
use proxy_cache_server.ProxyServer.Reaper.{Apart, pending, IsSound, act-Kept, Kept}

-- The action comes in time: a thread that is over can be joined.
abbrev pub comes_in_time : Action → Server → Bool
comes_in_time (finishes i) s = joinable (find_handle i s.client_threads)
comes_in_time _ s = true

abbrev pub in_time : List Action → Server → Bool
in_time [] s = true
in_time (a ∷ actions) s =
    comes_in_time a s && elim (act a s) [ none ↦ true | some s' ↦ in_time actions s' ]

abbrev pub CanJoin : List Handle → ℕ → Type 0
CanJoin hs i = joinable (find_handle i hs) ≡ true

abbrev pub CannotJoin : List Handle → ℕ → Type 0
CannotJoin hs i = joinable (find_handle i hs) ≡ false

abbrev pub Below : ℕ → List Handle → Type 0
Below n = All (λ h. h.id < n)

pub CanJoin-snoc : (hs : List Handle) (h : Handle) (i : ℕ) → CanJoin hs i → CanJoin (hs ++ h ∷ []) i
unfolding find_handle
CanJoin-snoc [] h i e = cc
CanJoin-snoc (g ∷ hs) h i e = ground (arith, CanJoin-snoc hs h i)

-- The new node cannot be joined, and neither can a node that could not before.
pub CannotJoin-snoc :
    (hs : List Handle) (h : Handle) (i : ℕ)
    → h.is_joinable ≡ false
    → CannotJoin hs i
    → CannotJoin (hs ++ h ∷ []) i
unfolding find_handle
CannotJoin-snoc [] h i new e = ground arith
CannotJoin-snoc (g ∷ hs) h i new e = ground (arith, CannotJoin-snoc hs h i new)

pub CannotJoin-Below : (n : ℕ) (hs : List Handle) → Below n hs → CannotJoin hs n
unfolding find_handle
CannotJoin-Below n [] b = refl
CannotJoin-Below n (h ∷ hs) (below, b) = ground (arith, CannotJoin-Below n hs b)

pub joinable-update :
    (i j : ℕ) (b : Bool) (hs : List Handle)
    → i ≢ j
    → joinable (find_handle j (update i (λ h. record h { is_joinable = b }) hs))
      ≡ joinable (find_handle j hs)
unfolding find_handle update
joinable-update i j b [] ne = refl
joinable-update i j b (h ∷ hs) ne = ground (arith, joinable-update i j b hs ne)

pub CannotJoin-update :
    (i j : ℕ) (hs : List Handle)
    → CannotJoin hs j
    → CannotJoin (update i (λ h. record h { is_joinable = false }) hs) j
unfolding find_handle update
CannotJoin-update i j [] e = e
CannotJoin-update i j (h ∷ hs) e = ground (arith, CannotJoin-update i j hs)

pub CannotJoin-update_self :
    (i : ℕ) (hs : List Handle) → CannotJoin (update i (λ h. record h { is_joinable = false }) hs) i
unfolding find_handle update
CannotJoin-update_self i [] = refl
CannotJoin-update_self i (h ∷ hs) = ground (arith, CannotJoin-update_self i hs)

pub CanJoin-update :
    (i j : ℕ) (hs : List Handle)
    → CanJoin hs j
    → CanJoin (update i (λ h. record h { is_joinable = true }) hs) j
unfolding find_handle update
CanJoin-update i j [] e = e
CanJoin-update i j (h ∷ hs) e = ground (arith, CanJoin-update i j hs)

pub joinable-finish :
    (i j : ℕ) (hs : List Handle)
    → joinable (find_handle j (update i (λ h. record h { has_finished = true }) hs))
      ≡ joinable (find_handle j hs)
unfolding find_handle update
joinable-finish i j [] = refl
joinable-finish i j (h ∷ hs) = ground (arith, joinable-finish i j hs)

pub joinable-erase_handle :
    (i j : ℕ) (hs : List Handle)
    → i ≢ j
    → joinable (find_handle j (erase_handle i hs)) ≡ joinable (find_handle j hs)
unfolding find_handle erase_handle
joinable-erase_handle i j [] ne = refl
joinable-erase_handle i j (h ∷ hs) ne = ground (arith, joinable-erase_handle i j hs ne)

pub Below-update :
    (n i : ℕ) (f : Handle → Handle) (hs : List Handle)
    → ((h : Handle) → (f h).id ≡ h.id)
    → Below n hs
    → Below n (update i f hs)
unfolding update
Below-update n i f [] same b = tt
Below-update n i f (h ∷ hs) same (below, b) = elim (Bool-cases (h.id == i)) [
  | inl here ↦ rw (here, update) (rw (same h) below, b)
  | inr other ↦ rw (other, update) (below, Below-update n i f hs same b)
]

pub Below-erase_handle : (n i : ℕ) (hs : List Handle) → Below n hs → Below n (erase_handle i hs)
unfolding erase_handle
Below-erase_handle n i [] b = tt
Below-erase_handle n i (h ∷ hs) (below, b) = elim (Bool-cases (h.id == i)) [
  | inl here ↦ rw (here, erase_handle) b
  | inr other ↦ rw (other, erase_handle) (below, Below-erase_handle n i hs b)
]
