-- ===== src/CacheManager/Recent.antt =====
-- The entry used last stays in the cache while fewer calls than the capacity go elsewhere.
use proxy_cache_server.Prelude.{
  ℕ, suc, ◌+◌, ◌<◌, ◌≡◌, ◌≢◌, refl, ap, ◌∙◌, inl, inr, true, false, ◌&&◌, List, [], ◌∷◌, ◌++◌, some,
  arith, length, All, Bool-cases, Option-cases,
}
use proxy_cache_server.Prelude.Int.{ℤ}
use proxy_cache_server.Text.{Bytes, bytes_eq}
use proxy_cache_server.Text.Equality.{bytes_eq_iff}
use proxy_cache_server.Libc.{Libc}
use proxy_cache_server.HttpResponse.{HttpResponse, is_cacheable}
use proxy_cache_server.CacheManager.{is_expired, cache_key}
use proxy_cache_server.CacheManager.Calls.{Call, store, fetch}
use proxy_cache_server.CacheManager.Slots.{
  Slot, find_live, take_out, put, expiry, keep, recall, answers,
}
use proxy_cache_server.Logger.{Logger}
use proxy_cache_server.CacheManager.{CacheManager, Node, Map, map_find, hit, get_cached_response}
use proxy_cache_server.CacheManager.Valid.{IsValid}
use proxy_cache_server.CacheManager.Calls.{run_calls, run_calls-IsValid}
use proxy_cache_server.CacheManager.Slots.Rows.{points_to, slot_of, slots, row}
use proxy_cache_server.CacheManager.Refinement.{row-fetch, row-run_calls}
use proxy_cache_server.CacheManager.Slots.Holds.{
  Others, Holds, find_live-Holds, retire-Holds, make_room-Holds, Holds-le, Holds-weaken, Holds-cons,
}

keep-Holds :
    (s : Slot) (n : ℕ) (libc : Libc) (capacity : ℕ) (now : ℤ) (url : Bytes) (r : HttpResponse)
    (row : List Slot)
    → n + 1 < capacity
    → bytes_eq s.key (cache_key url (is_cacheable r).1) ≡ false
    → Holds s n row
    → Holds s (suc n) (keep libc capacity now url r row)
unfolding keep put
keep-Holds s n libc capacity now url r row small other h =
    let room = make_room-Holds s n capacity row small h in
    let key = cache_key url (is_cacheable r).1 in
    elim (Bool-cases (is_cacheable r).0) [
      | inr refused ↦ rw (refused, keep) (Holds-weaken s n row h)
      | inl cacheable ↦ elim (Option-cases (expiry libc now (is_cacheable r).1)) [
        | inl undated ↦ rw (cacheable, keep, undated) (Holds-weaken s n _ room)
        | inr (time, dated) ↦
            rw (cacheable, keep, dated)
              (Holds-cons s _ n _ (λ e. ground (arith, bytes_eq_iff s.key key))
                (retire-Holds s n key _ other room))
      ]
    ]

take_out-Others :
    (key url : Bytes) (row : List Slot) → Others key row → Others key (take_out url row)
unfolding take_out
take_out-Others key url [] o = tt
take_out-Others key url (t ∷ row) (ne, o) = elim (Bool-cases (t.live && bytes_eq t.key url)) [
  | inl taken ↦ rw (taken, take_out) o
  | inr stays ↦ rw (stays, take_out) (ne, take_out-Others key url row o)
]

take_out-front :
    (s : Slot) (url : Bytes) (front back : List Slot)
    → bytes_eq s.key url ≡ false
    → Others s.key front
    → Others s.key back
    → s.live ≡ true
    → Holds s (length front) (take_out url (front ++ s ∷ back))
unfolding take_out
take_out-front s url [] back other o p live =
    let skip : (s.live && bytes_eq s.key url) ≡ false = ground arith in
    let stays : Holds s 0 (s ∷ take_out url back) = record {
      front = [];
      back = take_out url back;
      split = refl;
      near = omega arith;
      before = tt;
      behind = take_out-Others s.key url back p;
      live = live;
    } in
    rw (skip, take_out) stays
take_out-front s url (t ∷ front) back other (ne, o) p live =
    elim (Bool-cases (t.live && bytes_eq t.key url)) [
      | inl taken ↦
          let kept : Holds s (length front) (front ++ s ∷ back) = record {
            front = front;
            back = back;
            split = refl;
            near = omega arith;
            before = o;
            behind = p;
            live = live;
          } in
          rw (taken, take_out) (Holds-weaken s (length front) (front ++ s ∷ back) kept)
      | inr stays ↦
          rw (stays, take_out)
            (Holds-cons s t (length front) _ ne (take_out-front s url front back other o p live))
    ]

take_out-Holds :
    (s : Slot) (n : ℕ) (url : Bytes) (row : List Slot)
    → bytes_eq s.key url ≡ false
    → Holds s n row
    → Holds s n (take_out url row)
take_out-Holds s n url row other h =
    let kept = take_out-front s url h.front h.back other h.before h.behind h.live in
    rw h.split (record {
      front = kept.front;
      back = kept.back;
      split = kept.split;
      near = omega (arith, kept.near, h.near);
      before = kept.before;
      behind = kept.behind;
      live = h.live;
    })

find_live-key :
    (url : Bytes) (row : List Slot) (t : Slot) → find_live url row ≡ some t → t.key ≡ url
unfolding find_live
find_live-key url [] t e = cc
find_live-key url (u ∷ row) t e = ground (arith, bytes_eq_iff u.key url, find_live-key url row t)

recall-Holds :
    (s : Slot) (n : ℕ) (now : ℤ) (url : Bytes) (row : List Slot)
    → bytes_eq s.key url ≡ false
    → Holds s n row
    → Holds s (suc n) (recall now url row).0
unfolding recall
recall-Holds s n now url row other h = elim (Option-cases (find_live url row)) [
  | inl missing ↦ rw (missing, recall) (Holds-weaken s n row h)
  | inr (t, found) ↦ elim (Bool-cases (is_expired now t.entry)) [
    | inl expired ↦ rw (found, recall, expired) (Holds-weaken s n row h)
    | inr current ↦
        let named = find_live-key url row t found in
        let apart : t.key ≢ s.key = λ e. ground (arith, bytes_eq_iff s.key url) in
        rw (found, recall, current) (Holds-cons s t n _ apart (take_out-Holds s n url row other h))
  ]
]

-- The key that a call is about.
abbrev pub call_key : Call → Bytes
call_key (store now later id url r) = cache_key url (is_cacheable r).1
call_key (fetch now id url) = url

-- The calls are about other keys.
abbrev pub Elsewhere : Bytes → List Call → Type 0
Elsewhere key = All (λ call. bytes_eq key (call_key call) ≡ false)

pub answers-Holds :
    (s : Slot) (n : ℕ) (libc : Libc) (capacity : ℕ) (calls : List Call) (row : List Slot)
    → n + length calls < capacity
    → Elsewhere s.key calls
    → Holds s n row
    → Holds s (n + length calls) (answers libc capacity calls row).0
unfolding answers
answers-Holds s n libc capacity [] row small others h = Holds-le s n _ row (omega arith) h
answers-Holds s n libc capacity (store now later id url r ∷ calls) row small (other, others) h =
    let kept = keep-Holds s n libc capacity now url r row (omega arith) other h in
    Holds-le s (suc n + length calls) _ _ (omega arith)
      (answers-Holds s (suc n) libc capacity calls _ (omega arith) others kept)
answers-Holds s n libc capacity (fetch now id url ∷ calls) row small (other, others) h =
    let kept = recall-Holds s n now url row other h in
    Holds-le s (suc n + length calls) _ _ (omega arith)
      (answers-Holds s (suc n) libc capacity calls _ (omega arith) others kept)

-- The slot that the map points to, at the front and without another of its key.
Holds-first :
    (m : Map) (n : Node) (l : List Node)
    → map_find n.key m ≡ some n.address
    → All (λ k. k.key ≢ n.key) l
    → Holds (slot_of m n) 0 (slots m (n ∷ l))
unfolding slot_of points_to
Holds-first m n l present others = record {
  front = [];
  back = slots m l;
  split = refl;
  near = omega arith;
  before = tt;
  behind = slots-Others l others;
  live = ground arith;
}
  where
    slots-Others : (k : List Node) → All (λ j. j.key ≢ n.key) k → Others n.key (slots m k)
    slots-Others [] o = tt
    slots-Others (j ∷ k) (ne, o) = (ne, slots-Others k o)

recall-live :
    (now : ℤ) (url : Bytes) (row : List Slot) (s : Slot)
    → find_live url row ≡ some s
    → is_expired now s.entry ≡ false
    → (recall now url row).1 ≡ hit s.entry.response
unfolding recall
recall-live now url row s found current = rw (found, recall, current) refl

-- In a valid cache whose first node is the one that the map has for its key, and the only one of its key:
-- after stores and lookups of other keys, fewer than the capacity, a lookup of the key at a time before the
-- expiry of the node returns its response.
pub run_calls-get_cached_response :
    (libc : Libc) (calls : List Call) (c : CacheManager) (l : Logger) (n : Node)
    (others : List Node) (at_time : ℤ) (id : ℕ) (asker : Logger)
    → IsValid c
    → c.cache_list ≡ n ∷ others
    → map_find n.key c.cache_map ≡ some n.address
    → All (λ k. k.key ≢ n.key) others
    → Elsewhere n.key calls
    → length calls < c.cache_capacity
    → is_expired at_time n.entry ≡ false
    → (get_cached_response at_time id n.key (run_calls libc calls c l).cache asker).2
      ≡ hit n.entry.response
unfolding slot_of
run_calls-get_cached_response libc calls c l n others at_time id asker v first present alone away
      few current =
    let m = c.cache_map in
    let s = slot_of m n in
    let after = (run_calls libc calls c l).cache in
    let begins : Holds s 0 (row c) = rw first (Holds-first m n others present alone) in
    let v' = (run_calls-IsValid libc calls c l v).0 in
    let ran = ap (λ p. p.0) (row-run_calls libc calls c.cache_capacity c l v refl) in
    let held = answers-Holds s 0 libc c.cache_capacity calls (row c) (omega arith) away begins in
    let found : find_live n.key (row after) ≡ some s =
      ap (find_live n.key) ran ∙ find_live-Holds s (0 + length calls) _ held in
    ap (λ p. p.1) (row-fetch at_time id n.key after asker v')
    ∙ recall-live at_time n.key (row after) s found current
