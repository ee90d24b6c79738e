-- ===== src/ProxyServer/Shutdown/Well.antt =====
-- The invariant of the whole life of the server, and the events outside its destructor.
use proxy_cache_server.Prelude.{
  ℕ, ◌≡◌, refl, ◌∙◌, inl, inr, Bool, true, false, Option, none, some, [], arith, Bool-cases,
  Option-cases,
}
use proxy_cache_server.ProxyServer.{
  Server, update, Action, accepts, assigns, finishes, takes, erases, act,
}
use proxy_cache_server.ProxyServer.Reaper.{IsSound, act-Kept}
use proxy_cache_server.ProxyServer.Timely.{comes_in_time}
use proxy_cache_server.ProxyServer.Timely.Runs.{IsTimely, act-KeptInTime}
use proxy_cache_server.ProxyServer.Shutdown.{
  Phase, serving, stopping, waiting, down, joining, Life, stop_flag, permits, notified, do_action,
  nothing_to_reap,
}
use proxy_cache_server.ProxyServer.Shutdown.Kept.{
  IsDistinct, Effect, act-Effect, finish_only, is_start, is_reap,
}
use proxy_cache_server.ProxyServer.Shutdown.Covers.{Covers, Covers-finish}

abbrev pub Stands : Phase → Life → Type 0
Stands serving l = l.reaper_runs ≡ true
Stands stopping l = l.server.starting ≡ none
Stands waiting l = (l.server.starting ≡ none) × (l.asleep ≡ false)
Stands (joining is) l =
    (l.reaper_runs ≡ false) × (l.asleep ≡ false) × Covers is l.server.client_threads
Stands down l = (l.reaper_runs ≡ false) × (l.asleep ≡ false) × (l.server.client_threads ≡ [])

pub record IsWell (l : Life) : Type 0 where
  pub alive : l.server.terminated ≡ false
  pub distinct : IsDistinct l.server.client_threads
  pub reaps : l.reaper_runs ≡ true → IsTimely l.server × IsSound l.server
  pub rests : l.reaper_runs ≡ false → l.server.reaping ≡ none
  pub wakes : l.asleep ≡ true → nothing_to_reap l.server ≡ true
  pub stands : Stands l.phase l

notified_awake : (a : Action) (b : Bool) → b ≡ false → notified a b ≡ false
unfolding notified
notified_awake (finishes i) b e = refl
notified_awake accepts b e = e
notified_awake assigns b e = e
notified_awake takes b e = e
notified_awake erases b e = e

permits_over :
    (a : Action) (l : Life) → permits a l ≡ true → stop_flag l.phase ≡ true → is_start a ≡ false
unfolding permits is_start
permits_over (finishes i) l e stopped = refl
permits_over accepts l e stopped = absurd (ground arith)
permits_over assigns l e stopped = absurd (ground arith)
permits_over takes l e stopped = refl
permits_over erases l e stopped = refl

-- While the reaper is asleep, it is only start() that acts without a notification.
notified_start :
    (a : Action) (l : Life)
    → permits a l ≡ true
    → notified a l.asleep ≡ true
    → (l.asleep ≡ true) × (is_start a ≡ true) × (is_reap a ≡ false)
unfolding permits notified is_start is_reap
notified_start (finishes i) l e asleep = absurd cc
notified_start accepts l e asleep = (asleep, refl, refl)
notified_start assigns l e asleep = (asleep, refl, refl)
notified_start takes l e asleep = absurd (ground arith)
notified_start erases l e asleep = absurd (ground arith)

-- Where it is known that the actions of start() are over, the phase stands after another action.
Stands-working :
    (a : Action) (p : Phase) (l : Life) (s : Server)
    → l.reaper_runs ≡ true
    → (stop_flag p ≡ true → is_start a ≡ false)
    → Effect a l.server s
    → Stands p l
    → Stands p (record l { server = s; asleep = notified a l.asleep })
unfolding stop_flag notified
Stands-working a serving l s runs over effect st = runs
Stands-working a stopping l s runs over effect st = effect.started (over refl) ∙ st
Stands-working a waiting l s runs over effect st =
    (effect.started (over refl) ∙ st.0, notified_awake a l.asleep st.1)
Stands-working a (joining is) l s runs over effect st = absurd (let rests = st.0 in cc)
Stands-working a down l s runs over effect st = absurd (let rests = st.0 in cc)

works-IsWell :
    (a : Action) (l : Life) (s : Server)
    → l.reaper_runs ≡ true
    → permits a l ≡ true
    → comes_in_time a l.server ≡ true
    → act a l.server ≡ some s
    → IsWell l
    → IsWell (record l { server = s; asleep = notified a l.asleep })
works-IsWell a l s runs permitted timely done w =
    let (t, v) = w.reaps runs in
    let t' : IsTimely s = rw done at (act-KeptInTime a l.server timely v t) in
    let v' : IsSound s = rw done at (act-Kept a l.server v) in
    let effect = act-Effect a l.server s t.below done in
    record {
      alive = t'.alive;
      distinct = effect.distinct w.distinct;
      reaps = λ e. (t', v');
      rests = λ e. cc;
      wakes = λ e.
          let (asleep, start, quiet) = notified_start a l permitted e in
          rw (effect.queued start, effect.reaped quiet) (w.wakes asleep);
      stands = Stands-working a l.phase l s runs (permits_over a l permitted) effect w.stands;
    }

Stands-rested :
    (i : ℕ) (p : Phase) (l : Life) (s : Server)
    → l.reaper_runs ≡ false
    → (s.client_threads ≡ update i (λ h. record h { has_finished = true }) l.server.client_threads)
    → Effect (finishes i) l.server s
    → Stands p l
    → Stands p (record l { server = s; asleep = false })
unfolding is_start
Stands-rested i serving l s rests same effect st = absurd cc
Stands-rested i stopping l s rests same effect st = effect.started refl ∙ st
Stands-rested i waiting l s rests same effect st = (effect.started refl ∙ st.0, refl)
Stands-rested i (joining is) l s rests same effect st =
    (rests, refl, rw same (Covers-finish i is l.server.client_threads st.2))
Stands-rested i down l s rests same effect st =
    (rests, refl, rw (same, st.2) (unfold update in refl))

-- Without the reaper, threads of clients come to their end.
rests-IsWell :
    (i : ℕ) (l : Life) (s : Server)
    → l.reaper_runs ≡ false
    → act (finishes i) l.server ≡ some s
    → IsWell l
    → IsWell (record l { server = s; asleep = false })
unfolding act is_reap
rests-IsWell i l s rests done w =
    let (same, terminated, effect) = finish_only i l.server s done in
    record {
      alive = terminated ∙ w.alive;
      distinct = effect.distinct w.distinct;
      reaps = λ e. absurd cc;
      rests = λ e. effect.reaped refl ∙ w.rests rests;
      wakes = λ e. cc;
      stands = Stands-rested i l.phase l s rests same effect w.stands;
    }

serving_reaper : (p : Phase) (l : Life) → stop_flag p ≡ false → Stands p l → l.reaper_runs ≡ true
unfolding stop_flag
serving_reaper serving l e st = st
serving_reaper stopping l e st = absurd cc
serving_reaper waiting l e st = absurd cc
serving_reaper (joining is) l e st = absurd cc
serving_reaper down l e st = absurd cc

-- What an event leaves, where it can happen.
abbrev pub WellAfter : Option Life → Type 0
WellAfter none = Unit
WellAfter (some l) = IsWell l

idle_reaper-IsWell :
    (a : Action) (l : Life) (s : Server)
    → l.reaper_runs ≡ false
    → permits a l ≡ true
    → act a l.server ≡ some s
    → IsWell l
    → IsWell (record l { server = s; asleep = notified a l.asleep })
unfolding permits notified
idle_reaper-IsWell (finishes i) l s rests permitted done w = rests-IsWell i l s rests done w
idle_reaper-IsWell accepts l s rests permitted done w =
    absurd (let runs = serving_reaper l.phase l (ground arith) w.stands in cc)
idle_reaper-IsWell assigns l s rests permitted done w =
    absurd (let runs = serving_reaper l.phase l (ground arith) w.stands in cc)
idle_reaper-IsWell takes l s rests permitted done w = absurd (ground arith)
idle_reaper-IsWell erases l s rests permitted done w = absurd (ground arith)

pub does-WellAfter :
    (a : Action) (l : Life) → comes_in_time a l.server ≡ true → IsWell l → WellAfter (do_action a l)
unfolding do_action
does-WellAfter a l timely w = elim (Bool-cases (permits a l)) [
  | inr refused ↦ rw (refused, do_action) tt
  | inl permitted ↦ elim (Option-cases (act a l.server)) [
    | inl blocked ↦ rw (permitted, do_action, blocked) tt
    | inr (s, done) ↦ elim (Bool-cases l.reaper_runs) [
      | inl runs ↦ rw (permitted, do_action, done) (works-IsWell a l s runs permitted timely done w)
      | inr rests ↦
          rw (permitted, do_action, done) (idle_reaper-IsWell a l s rests permitted done w)
    ]
  ]
]
