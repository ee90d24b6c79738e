-- ===== src/ProxyServer/Timely/Runs.antt =====
-- The invariant of such runs.
use proxy_cache_server.Prelude.{
  ℕ, suc, ◌<◌, ◌≡◌, ◌≢◌, refl, sym, ◌∙◌, inl, inr, true, false, Option, none, some, is_some, List,
  [], ◌∷◌, ◌++◌, arith, ◌||◌, Bool-cases, Option-cases, List-cases, All, All-append, All-map,
}
use proxy_cache_server.ProxyServer.{
  Handle, Server, new_server, find_handle, update, erase_handle, joinable, accept_client,
  assign_thread, finish_client, take_finished, erase_thread, Action, accepts, assigns, finishes,
  takes, erases, act, run,
}
use proxy_cache_server.ProxyServer.Reaper.{IsSound, act-Kept}
use proxy_cache_server.ProxyServer.Timely.{
  comes_in_time, in_time, CanJoin, CannotJoin, Below, CanJoin-snoc, CannotJoin-snoc,
  CannotJoin-Below, joinable-update, CannotJoin-update, CannotJoin-update_self, CanJoin-update,
  joinable-finish, joinable-erase_handle, Below-update, Below-erase_handle,
}

pub record IsTimely (s : Server) : Type 0 where
  pub idle : (i : ℕ) → s.reaping ≡ some i → CannotJoin s.client_threads i × (i < s.next_id)
  pub ready : All (CanJoin s.client_threads) s.reaper_q
  pub begun : (j : ℕ) → s.starting ≡ some j → CannotJoin s.client_threads j
  pub others : (i j : ℕ) → s.reaping ≡ some i → s.starting ≡ some j → i ≢ j
  pub below : Below s.next_id s.client_threads
  pub alive : s.terminated ≡ false

abbrev pub KeptInTime : Option Server → Type 0
KeptInTime none = Unit
KeptInTime (some s) = IsTimely s

Below-weaken : (n : ℕ) (hs : List Handle) → Below n hs → Below (suc n) hs
Below-weaken n hs b = All-map _ _ hs (λ h below. omega arith) b

-- A node that can be joined is in the list.
CanJoin-Below : (n i : ℕ) (hs : List Handle) → Below n hs → CanJoin hs i → i < n
unfolding find_handle
CanJoin-Below n i [] b e = cc
CanJoin-Below n i (h ∷ hs) (below, b) e = ground (arith, CanJoin-Below n i hs b)

accept_client-KeptInTime : (s : Server) → IsTimely s → KeptInTime (accept_client s)
unfolding accept_client
accept_client-KeptInTime s t = elim (Option-cases s.starting) [
  | inr (j, busy) ↦ rw (busy, accept_client) tt
  | inl free ↦
      let hs = s.client_threads in
      let h : Handle = record { id = s.next_id; is_joinable = false; has_finished = false } in
      let made : IsTimely (record s {
        client_threads = hs ++ h ∷ [];
        next_id = suc s.next_id;
        starting = some s.next_id;
      }) =
        record {
          idle = λ i e.
              let (cannot, small) = t.idle i e in
              (CannotJoin-snoc hs h i refl cannot, omega (arith, small));
          ready = All-map _ _ s.reaper_q (λ i. CanJoin-snoc hs h i) t.ready;
          begun = λ j e.
              let same : j ≡ s.next_id = ground arith in
              CannotJoin-snoc hs h j refl (rw same (CannotJoin-Below s.next_id hs t.below));
          others = λ i j e f. let small = (t.idle i e).1 in λ same. ground (arith, small);
          below =
              All-append (λ g. g.id < suc s.next_id) hs (h ∷ []) (Below-weaken s.next_id hs t.below)
                (omega arith, tt);
          alive = t.alive;
        } in
      rw (free, accept_client) made
]

assign_thread-KeptInTime : (s : Server) → IsTimely s → KeptInTime (assign_thread s)
unfolding assign_thread
assign_thread-KeptInTime s t = elim (Option-cases s.starting) [
  | inl idle ↦ rw (idle, assign_thread) tt
  | inr (j, busy) ↦
      let hs = s.client_threads in
      let made : IsTimely (record s {
        client_threads = update j (λ h. record h { is_joinable = true }) hs;
        starting = none;
      }) =
        record {
          idle = λ i e.
              let (cannot, small) = t.idle i e in
              (
                joinable-update j i true hs (λ same. t.others i j e busy (sym same)) ∙ cannot,
                small,
              );
          ready = All-map _ _ s.reaper_q (λ i. CanJoin-update j i hs) t.ready;
          begun = λ k e. absurd cc;
          others = λ i k e f. absurd cc;
          below = Below-update s.next_id j _ hs (λ h. refl) t.below;
          alive = t.alive;
        } in
      rw (busy, assign_thread) made
]

pub finish_client-KeptInTime :
    (i : ℕ) (s : Server) → CanJoin s.client_threads i → IsTimely s → KeptInTime (finish_client i s)
unfolding finish_client
finish_client-KeptInTime i s can t = elim (Option-cases (find_handle i s.client_threads)) [
  | inl missing ↦ rw (missing, finish_client) tt
  | inr (h, found) ↦ elim (Bool-cases (h.has_finished || is_some s.reaping)) [
    | inl stays ↦ rw (found, finish_client, stays) tt
    | inr goes ↦
        let hs = s.client_threads in
        let over : Handle → Handle = λ h. record h { has_finished = true } in
        let made : IsTimely
            (record s { client_threads = update i over hs; reaper_q = s.reaper_q ++ i ∷ [] }) =
          record {
            idle =
                λ k e. let (cannot, small) = t.idle k e in (joinable-finish i k hs ∙ cannot, small);
            ready =
                All-append (CanJoin (update i over hs)) s.reaper_q (i ∷ [])
                  (All-map _ _ s.reaper_q (λ k e. joinable-finish i k hs ∙ e) t.ready)
                  (joinable-finish i i hs ∙ can, tt);
            begun = λ k e. joinable-finish i k hs ∙ t.begun k e;
            others = t.others;
            below = Below-update s.next_id i over hs (λ h. refl) t.below;
            alive = t.alive;
          } in
        rw (found, finish_client, goes) made
  ]
]

-- The other nodes of the queue are left as they are.
CanJoin-update_others :
    (i : ℕ) (hs : List Handle) (q : List ℕ)
    → All (λ j. i ≢ j) q
    → All (CanJoin hs) q
    → All (CanJoin (update i (λ h. record h { is_joinable = false }) hs)) q
CanJoin-update_others i hs [] apart can = tt
CanJoin-update_others i hs (j ∷ q) (ne, apart) (e, can) =
    (joinable-update i j false hs ne ∙ e, CanJoin-update_others i hs q apart can)

CanJoin-erase_others :
    (i : ℕ) (hs : List Handle) (q : List ℕ)
    → All (λ j. i ≢ j) q
    → All (CanJoin hs) q
    → All (CanJoin (erase_handle i hs)) q
CanJoin-erase_others i hs [] apart can = tt
CanJoin-erase_others i hs (j ∷ q) (ne, apart) (e, can) =
    (joinable-erase_handle i j hs ne ∙ e, CanJoin-erase_others i hs q apart can)

take_finished-KeptInTime : (s : Server) → IsSound s → IsTimely s → KeptInTime (take_finished s)
unfolding take_finished
take_finished-KeptInTime s v t = elim (Option-cases s.reaping) [
  | inr (j, reaps) ↦ rw (reaps, take_finished) tt
  | inl waits ↦ elim (List-cases s.reaper_q) [
    | inl nothing ↦ rw (waits, nothing, take_finished) tt
    | inr (i, q, e) ↦
        let hs = s.client_threads in
        let (apart, rest) = rw (waits, e) at v.apart in
        let (can, ready) = rw e at t.ready in
        let made : IsTimely (record s {
          client_threads = update i (λ h. record h { is_joinable = false }) hs;
          reaper_q = q;
          reaping = some i;
        }) =
          record {
            idle = λ k f.
                let same : i ≡ k = ground arith in
                (
                  rw (← same) (CannotJoin-update_self i hs),
                  rw (← same) (CanJoin-Below s.next_id i hs t.below can),
                );
            ready = CanJoin-update_others i hs q apart ready;
            begun = λ k f. CannotJoin-update i k hs (t.begun k f);
            others = λ k j f g. let cannot = t.begun j g in λ same. ground arith;
            below = Below-update s.next_id i _ hs (λ h. refl) t.below;
            alive = t.alive;
          } in
        rw (waits, e, take_finished) made
  ]
]

erase_thread-KeptInTime : (s : Server) → IsSound s → IsTimely s → KeptInTime (erase_thread s)
unfolding erase_thread
erase_thread-KeptInTime s v t = elim (Option-cases s.reaping) [
  | inl idle ↦ rw (idle, erase_thread) tt
  | inr (i, reaps) ↦ elim (Bool-cases (is_some s.starting)) [
    | inl busy ↦ rw (reaps, busy, erase_thread) tt
    | inr free ↦
        let hs = s.client_threads in
        let (apart, rest) = rw reaps at v.apart in
        let cannot = (t.idle i reaps).0 in
        let alive : (s.terminated || joinable (find_handle i hs)) ≡ false =
          ground (arith, t.alive) in
        let made : IsTimely (record s {
          client_threads = erase_handle i hs;
          reaping = none;
          terminated = s.terminated || joinable (find_handle i hs);
        }) =
          record {
            idle = λ k e. absurd cc;
            ready = CanJoin-erase_others i hs s.reaper_q apart t.ready;
            begun = λ k e. absurd (ground arith);
            others = λ k j e f. absurd cc;
            below = Below-erase_handle s.next_id i hs t.below;
            alive = alive;
          } in
        rw (reaps, free, erase_thread) made
  ]
]

pub act-KeptInTime :
    (a : Action) (s : Server)
    → comes_in_time a s ≡ true
    → IsSound s
    → IsTimely s
    → KeptInTime (act a s)
unfolding act
act-KeptInTime accepts s e v t = accept_client-KeptInTime s t
act-KeptInTime assigns s e v t = assign_thread-KeptInTime s t
act-KeptInTime (finishes i) s e v t = finish_client-KeptInTime i s e t
act-KeptInTime takes s e v t = take_finished-KeptInTime s v t
act-KeptInTime erases s e v t = erase_thread-KeptInTime s v t

run-KeptInTime :
    (actions : List Action) (s : Server)
    → in_time actions s ≡ true
    → IsSound s
    → IsTimely s
    → KeptInTime (run actions s)
unfolding run
run-KeptInTime [] s e v t = t
run-KeptInTime (a ∷ actions) s e v t = elim (Option-cases (act a s)) [
  | inl blocked ↦ rw (blocked, run) tt
  | inr (s', done) ↦
      rw (done, run)
        (run-KeptInTime actions s' (ground arith) (rw done at (act-Kept a s v))
          (rw done at (act-KeptInTime a s (ground arith) v t)))
]

pub new_server-IsTimely : IsTimely new_server
new_server-IsTimely = record {
  idle = λ i e. absurd cc;
  ready = tt;
  begun = λ j e. absurd cc;
  others = λ i j e f. absurd cc;
  below = tt;
  alive = refl;
}

-- A run of the server from its start, in which no thread is over before start() has moved it into its
-- node, does not end in std::terminate, in whatever order the threads act otherwise.
pub run_alive :
    (actions : List Action) {s : Server}
    → in_time actions new_server ≡ true
    → run actions new_server ≡ some s
    → s.terminated ≡ false
run_alive actions timely e =
    let kept =
      run-KeptInTime actions new_server timely (record { over = tt; apart = tt })
        new_server-IsTimely in
    (rw e at kept).alive
