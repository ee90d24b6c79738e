-- ===== src/ProxyServer/Shutdown/Events.antt =====
-- The reaper falls asleep or ends its loop, and start() its own.
use proxy_cache_server.Prelude.{
  ◌≡◌, refl, inl, inr, true, false, not, none, is_some, arith, ◌&&◌, Bool-cases, Option-cases,
}
use proxy_cache_server.ProxyServer.Timely.Runs.{IsTimely}
use proxy_cache_server.ProxyServer.Shutdown.{
  Phase, serving, stopping, waiting, down, joining, Life, stop_flag, nothing_to_reap, sleep, leave,
  fail_thread,
}
use proxy_cache_server.ProxyServer.Shutdown.Well.{Stands, IsWell, WellAfter}

Stands-asleep :
    (p : Phase) (l : Life)
    → stop_flag p ≡ false
    → Stands p l
    → Stands p (record l { asleep = true })
unfolding stop_flag
Stands-asleep serving l e st = st
Stands-asleep stopping l e st = absurd cc
Stands-asleep waiting l e st = absurd cc
Stands-asleep (joining is) l e st = absurd cc
Stands-asleep down l e st = absurd cc

pub sleep-WellAfter : (l : Life) → IsWell l → WellAfter (sleep l)
unfolding sleep
sleep-WellAfter l w =
    elim (Bool-cases (l.reaper_runs && (nothing_to_reap l.server && not (stop_flag l.phase)))) [
      | inr refused ↦ rw (refused, sleep) tt
      | inl dozes ↦
          rw (dozes, sleep)
            (record {
              alive = w.alive;
              distinct = w.distinct;
              reaps = w.reaps;
              rests = w.rests;
              wakes = λ e. ground arith;
              stands = Stands-asleep l.phase l (ground arith) w.stands;
            })
    ]

Stands-left :
    (p : Phase) (l : Life)
    → stop_flag p ≡ true
    → Stands p l
    → Stands p (record l { reaper_runs = false })
unfolding stop_flag
Stands-left serving l e st = absurd cc
Stands-left stopping l e st = st
Stands-left waiting l e st = st
Stands-left (joining is) l e st = (refl, st.1, st.2)
Stands-left down l e st = (refl, st.1, st.2)

pub leave-WellAfter : (l : Life) → IsWell l → WellAfter (leave l)
unfolding leave
leave-WellAfter l w =
    let ready =
      l.reaper_runs && not l.asleep && not (is_some l.server.reaping) && stop_flag l.phase in
    elim (Bool-cases ready) [
      | inr refused ↦ rw (refused, leave) tt
      | inl goes ↦
          rw (goes, leave)
            (record {
              alive = w.alive;
              distinct = w.distinct;
              reaps = λ e. absurd cc;
              rests = λ e. ground arith;
              wakes = w.wakes;
              stands = Stands-left l.phase l (ground arith) w.stands;
            })
    ]

pub fail_thread-WellAfter : (l : Life) → IsWell l → WellAfter (fail_thread l)
unfolding fail_thread
fail_thread-WellAfter l w = elim (Option-cases l.server.starting) [
  | inl idle ↦ rw (idle, fail_thread) tt
  | inr (i, busy) ↦ elim (Bool-cases (stop_flag l.phase)) [
    | inl over ↦ rw (busy, fail_thread, over) tt
    | inr serves ↦
        let failed : IsTimely l.server → IsTimely (record l.server { starting = none }) = λ t.
          record {
            idle = t.idle;
            ready = t.ready;
            begun = λ j e. absurd cc;
            others = λ k j e f. absurd cc;
            below = t.below;
            alive = t.alive;
          } in
        rw (busy, fail_thread, serves)
          (record {
            alive = w.alive;
            distinct = w.distinct;
            reaps = λ e.
                let (t, v) = w.reaps e in (failed t, record { over = v.over; apart = v.apart });
            rests = w.rests;
            wakes = w.wakes;
            stands = refl;
          })
  ]
]
