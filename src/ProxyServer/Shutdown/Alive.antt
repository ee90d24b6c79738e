-- ===== src/ProxyServer/Shutdown/Alive.antt =====
-- The life of the server, up to the end of its destructor.
use proxy_cache_server.Prelude.{
  ◌≡◌, refl, ◌∙◌, inl, inr, Bool, true, false, none, some, is_some, List, [], ◌∷◌, arith, ◌&&◌,
  Bool-cases, Option-cases,
}
use proxy_cache_server.ProxyServer.{Server}
use proxy_cache_server.ProxyServer.Timely.{comes_in_time}
use proxy_cache_server.ProxyServer.Timely.Runs.{new_server-IsTimely, new_server-IsTimely}
use proxy_cache_server.ProxyServer.Shutdown.{
  Phase, serving, stopping, waiting, down, joining, Life, new_life, join_left, drop_members,
  destruct, Event, does, sleeps, leaves, fails, destructs, step, live,
}
use proxy_cache_server.ProxyServer.Shutdown.Covers.{
  ids-Covers, Covers-any_joinable, join_left-Covers,
}
use proxy_cache_server.ProxyServer.Shutdown.Well.{Stands, IsWell, WellAfter, does-WellAfter}
use proxy_cache_server.ProxyServer.Shutdown.Events.{
  sleep-WellAfter, leave-WellAfter, fail_thread-WellAfter,
}

destruct-WellAfter : (p : Phase) (l : Life) → l.phase ≡ p → IsWell l → WellAfter (destruct l)
unfolding destruct
destruct-WellAfter serving l e w = rw (e, destruct) tt
destruct-WellAfter down l e w = rw (e, destruct) tt
destruct-WellAfter stopping l e w = elim (Bool-cases (is_some l.server.reaping)) [
  | inl busy ↦ rw (e, destruct, busy) tt
  | inr free ↦
      let none_starts : l.server.starting ≡ none = rw e at w.stands in
      rw (e, destruct, free)
        (record {
          alive = w.alive;
          distinct = w.distinct;
          reaps = w.reaps;
          rests = w.rests;
          wakes = λ e. cc;
          stands = (none_starts, refl);
        })
]
destruct-WellAfter waiting l e w = elim (Bool-cases l.reaper_runs) [
  | inl runs ↦ rw (e, destruct, runs) tt
  | inr rests ↦
      let (_, awake) = rw e at w.stands in
      rw (e, destruct, rests)
        (record {
          alive = w.alive;
          distinct = w.distinct;
          reaps = λ e. absurd cc;
          rests = λ e. w.rests rests;
          wakes = w.wakes;
          stands = (refl, awake, ids-Covers l.server.client_threads);
        })
]
destruct-WellAfter (joining []) l e w =
    let (rests, awake, covers) = rw e at w.stands in
    let none_left = Covers-any_joinable l.server.client_threads covers in
    rw (e, destruct)
      (record {
        alive = unfold drop_members in ground (arith, w.alive);
        distinct = unfold drop_members in tt;
        reaps = λ e. absurd cc;
        rests = λ e. unfold drop_members in w.rests e;
        wakes = λ e. absurd cc;
        stands = unfold drop_members in (rests, awake, refl);
      })
destruct-WellAfter (joining (i ∷ is)) l e w =
    let (rests, awake, covers) = rw e at w.stands in
    elim (Option-cases (join_left i l.server)) [
      | inl blocked ↦ rw (e, destruct, blocked) tt
      | inr (s, joined) ↦
          let (left, distinct, terminated, reaping) =
            join_left-Covers i is l.server s joined w.distinct covers in
          rw (e, destruct, joined)
            (record {
              alive = terminated ∙ w.alive;
              distinct = distinct;
              reaps = λ e. absurd cc;
              rests = λ e. reaping ∙ w.rests e;
              wakes = λ e. absurd cc;
              stands = (rests, awake, left);
            })
    ]

-- The event comes in time: a thread that is over can be joined.
abbrev pub comes : Event → Life → Bool
comes (does a) l = comes_in_time a l.server
comes _ l = true

abbrev pub timely : List Event → Life → Bool
timely [] l = true
timely (e ∷ events) l = comes e l && elim (step e l) [ none ↦ true | some l' ↦ timely events l' ]

step-WellAfter : (e : Event) (l : Life) → comes e l ≡ true → IsWell l → WellAfter (step e l)
unfolding step
step-WellAfter (does a) l timely w = does-WellAfter a l timely w
step-WellAfter sleeps l timely w = sleep-WellAfter l w
step-WellAfter leaves l timely w = leave-WellAfter l w
step-WellAfter fails l timely w = fail_thread-WellAfter l w
step-WellAfter destructs l timely w = destruct-WellAfter l.phase l refl w

live-WellAfter :
    (events : List Event) (l : Life) → timely events l ≡ true → IsWell l → WellAfter (live events l)
unfolding live
live-WellAfter [] l e w = w
live-WellAfter (a ∷ events) l e w = elim (Option-cases (step a l)) [
  | inl blocked ↦ rw (blocked, live) tt
  | inr (l', done) ↦
      rw (done, live)
        (live-WellAfter events l' (ground arith) (rw done at (step-WellAfter a l (ground arith) w)))
]

new_life-IsWell : IsWell new_life
new_life-IsWell = record {
  alive = refl;
  distinct = tt;
  reaps = λ e. (new_server-IsTimely, record { over = tt; apart = tt });
  rests = λ e. refl;
  wakes = λ e. cc;
  stands = refl;
}

pub live-IsWell :
    (events : List Event) {l : Life}
    → timely events new_life ≡ true
    → live events new_life ≡ some l
    → IsWell l
live-IsWell events e done = rw done at (live-WellAfter events new_life e new_life-IsWell)

abbrev pub LeavesNone : Phase → Server → Type 0
LeavesNone down s = s.client_threads ≡ []
LeavesNone _ s = Unit

none_left : (p : Phase) (l : Life) → Stands p l → LeavesNone p l.server
none_left serving l st = tt
none_left stopping l st = tt
none_left waiting l st = tt
none_left (joining is) l st = tt
none_left down l st = st.2

-- The life of a server in which no thread is over before start() has moved it into its node, in any
-- order of what its threads do, an exception for want of a thread included: it does not end in
-- std::terminate, and at the end of the destructor no node of `client_threads` is left.
pub live_alive :
    (events : List Event) {l : Life}
    → timely events new_life ≡ true
    → live events new_life ≡ some l
    → (l.server.terminated ≡ false) × LeavesNone l.phase l.server
live_alive events {l} e done =
    let w = live-IsWell events e done in (w.alive, none_left l.phase l w.stands)
