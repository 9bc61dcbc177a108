-- ===== src/Kubernetes/Setup/Once.antt =====
-- The invariant of the tracker of internal/worker/kubernetes_setup_events.go: the phases that it
-- reported, and the spans, of a phase or of the execution, that it ended.
pub mod Run
use Prim.Native.String.{◌++◌ as str_append}
use oz_agent_worker.Prelude.{
  ℕ, ◌+◌, ◌≡◌, refl, ◌∙◌, Bool, true, false, ◌&&◌, ◌||◌, not, if◌then◌else◌, Option, none, some,
  is_some, List, [], ◌∷◌, ◌++◌, ◌==◌, nat_eq, String, string_eq, ltb, contains, contains-append,
  IsDistinct, map, length, ap, arith, if-rule, Option-cases, inl, inr,
}
use oz_agent_worker.Assoc.{
  Map, lookup, insert, delete, lookup-insert, lookup-delete, IsMap, insert-IsMap, delete-IsMap,
}
use oz_agent_worker.Kubernetes.Setup.{
  ReportedPhase, Tracker, new_kubernetes_setup_phase_tracker, is_reported, track_interval,
  observe_interval, start_interval, start_unless_reported, report, finish_tracker, live_keys,
}

abbrev pub names : List ReportedPhase → List String
names [] = []
names (p ∷ ps) = p.event_name ∷ names ps

-- A phase has both its times, in order.
abbrev pub AllProper : List ReportedPhase → Type 0
AllProper [] = Unit
AllProper (p ∷ ps) =
    (p.start == 0 ≡ false) × (p.finish == 0 ≡ false) × (ltb p.finish p.start ≡ false) × AllProper ps

abbrev pub going : Option ℕ → ℕ
going none = 0
going (some number) = 1

-- Of the execution spans: no number ended twice, none ended that is yet to come or goes on, and none
-- lost that was made.
pub record ExecutionsOnce (execution : Option ℕ) (executions ended : List ℕ) : Type 0 where
  pub distinct : IsDistinct ended
  pub made : (i : ℕ) → contains ended i ≡ true → ltb i (length executions) ≡ true
  pub current :
      (i : ℕ) → execution ≡ some i → (ltb i (length executions) ≡ true) × (contains ended i ≡ false)
  pub counted : length ended + going execution ≡ length executions

pub record IsOnce (t : Tracker) : Type 0 where
  pub distinct : IsDistinct (names t.sent)
  pub known : (k : String) → contains (names t.sent) k ≡ true → is_reported k t ≡ true
  pub proper : AllProper t.sent
  pub ended_distinct : IsDistinct t.ended
  pub ended_known : (k : String) → contains t.ended k ≡ true → is_reported k t ≡ true
  pub live_map : IsMap t.live
  pub going_on : (k : String) → is_some (lookup k t.live) ≡ true → is_reported k t ≡ false
  pub spans : ExecutionsOnce t.execution t.executions t.ended_executions

contains-live_keys :
    (k : String) (m : Map String ℕ) → contains (live_keys m) k ≡ is_some (lookup k m)
unfolding contains lookup
contains-live_keys k [] = refl
contains-live_keys k ((j, s) ∷ m) = ground (arith, contains-live_keys k m)

IsMap-IsDistinct : (m : Map String ℕ) → IsMap m → IsDistinct (live_keys m)
IsMap-IsDistinct [] h = tt
IsMap-IsDistinct ((k, s) ∷ m) h = (ground (arith, contains-live_keys k m), IsMap-IsDistinct m h.1)

append-IsDistinct :
    (xs ys : List String)
    → IsDistinct xs
    → IsDistinct ys
    → ((k : String) → contains xs k ≡ true → contains ys k ≡ false)
    → IsDistinct (xs ++ ys)
unfolding contains
append-IsDistinct [] ys h k d = k
append-IsDistinct (x ∷ xs) ys h k d = (
  ground (arith, contains-append xs ys x, d x, string_eq.beq_iff x x),
  append-IsDistinct xs ys h.1 k (λ j e. d j (ground (arith, e))),
)

-- The live span of a key, as track_interval finds or makes it.
abbrev live_of : String → ℕ → Tracker → Map String ℕ
live_of key start t = if is_some (lookup key t.live) then t.live else insert key start t.live

live_of-IsMap :
    (key : String) (start : ℕ) (t : Tracker) → IsMap t.live → IsMap (live_of key start t)
live_of-IsMap key start t h =
    if-rule IsMap (is_some (lookup key t.live)) t.live (insert key start t.live) (λ e. h)
      (λ e. insert-IsMap key start t.live h)

lookup-live_of :
    (key k : String) (start : ℕ) (t : Tracker)
    → is_some (lookup k (live_of key start t)) ≡ (key == k || is_some (lookup k t.live))
lookup-live_of key k start t =
    ground (arith, lookup-insert key k start t.live, string_eq.beq_iff key k)

-- What a call that tracks the interval of a key leaves.
abbrev Tracked : String → ℕ → Tracker → Tracker → Type 0
Tracked key finish t r =
    IsOnce r
    × ((finish == 0) ≡ false → is_reported key r ≡ true)
    × ((k : String) → is_reported k t ≡ true → is_reported k r ≡ true)
    × (r.sent ≡ t.sent)

track_interval-Tracked :
    (key : String) (start finish : ℕ) (t : Tracker)
    → is_reported key t ≡ false
    → IsOnce t
    → Tracked key finish t (track_interval key start finish t)
unfolding track_interval contains
track_interval-Tracked key start finish t h v =
    let live = live_of key start t in
    let made = live_of-IsMap key start t v.live_map in
    if-rule (Tracked key finish t) (finish == 0) (record t { live = live }) _
      (λ e. (
        record {
          distinct = v.distinct;
          known = v.known;
          proper = v.proper;
          ended_distinct = v.ended_distinct;
          ended_known = v.ended_known;
          live_map = made;
          going_on = λ k l.
              ground (arith, lookup-live_of key k start t, v.going_on k, string_eq.beq_iff key k);
          spans = v.spans;
        },
        λ x. ground (arith, e, x),
        λ k x. x,
        refl,
      ))
      (λ e. (
        record {
          distinct = v.distinct;
          known = λ k x. ground (arith, v.known k x);
          proper = v.proper;
          ended_distinct = (ground (arith, v.ended_known key), v.ended_distinct);
          ended_known = λ k x. ground (arith, v.ended_known k, x);
          live_map = delete-IsMap key live made;
          going_on = λ k l. ground (
            arith,
            lookup-live_of key k start t,
            lookup-delete key k live,
            v.going_on k,
            string_eq.beq_iff key k,
          );
          spans = v.spans;
        },
        λ x. ground (arith, string_eq.beq_iff key key),
        λ k x. ground (arith, x),
        refl,
      ))

observe_interval-IsOnce :
    (key : String) (start finish : ℕ) (t : Tracker)
    → IsOnce t
    → IsOnce (observe_interval key start finish t)
unfolding observe_interval
observe_interval-IsOnce key start finish t v =
    if-rule IsOnce ((is_reported key t || start == 0) || (not (finish == 0) && ltb finish start)) t
      (track_interval key start finish t) (λ e. v)
      (λ e. (track_interval-Tracked key start finish t (ground (arith, e)) v).0)

-- A phase is added to what is sent, once its event is newly marked as reported.
sent-IsOnce :
    (p : ReportedPhase) (t r : Tracker)
    → IsOnce t
    → Tracked p.event_name p.finish t r
    → is_reported p.event_name t ≡ false
    → AllProper (p ∷ [])
    → IsOnce (record r { sent = p ∷ r.sent })
unfolding contains
sent-IsOnce p t r v k h w =
    let once = k.0 in
    let same : contains (names r.sent) p.event_name ≡ contains (names t.sent) p.event_name =
      ap (λ ps. contains (names ps) p.event_name) k.3 in
    let absent : contains (names t.sent) p.event_name ≡ false =
      ground (arith, v.known p.event_name) in
    record {
      distinct = (same ∙ absent, once.distinct);
      known = λ n x. ground (arith, k.1 w.1, once.known n, x, string_eq.beq_iff p.event_name n);
      proper = (w.0, w.1, w.2, once.proper);
      ended_distinct = once.ended_distinct;
      ended_known = once.ended_known;
      live_map = once.live_map;
      going_on = once.going_on;
      spans = once.spans;
    }

report-IsOnce :
    (event : String) (start finish : ℕ) (b : Bool) (t : Tracker)
    → IsOnce t
    → IsOnce (report event start finish b t)
unfolding report observe_interval contains
report-IsOnce event start finish b t v =
    if-rule IsOnce (((is_reported event t || start == 0) || finish == 0) || ltb finish start) t _
      (λ e. v)
      (λ e.
        let new : is_reported event t ≡ false = ground (arith, e) in
        let tracked : Tracked event finish t (observe_interval event start finish t) =
          if-rule (Tracked event finish t)
            ((is_reported event t || start == 0) || (not (finish == 0) && ltb finish start)) t
            (track_interval event start finish t) (λ f. ground (arith, e, f))
            (λ f. track_interval-Tracked event start finish t new v) in
        sent-IsOnce (record { event_name = event; start = start; finish = finish; is_error = b }) t
          (observe_interval event start finish t) v tracked new
          (ground (arith, e), ground (arith, e), ground (arith, e), tt))

finished-ExecutionsOnce :
    (execution : Option ℕ) (executions ended : List ℕ)
    → ExecutionsOnce execution executions ended
    → ExecutionsOnce none executions
        (elim execution [ some number ↦ number ∷ ended | none ↦ ended ])
unfolding contains
finished-ExecutionsOnce none executions ended v = record {
  distinct = v.distinct;
  made = v.made;
  current = λ i e. cc;
  counted = v.counted;
}
finished-ExecutionsOnce (some n) executions ended v =
    let now = v.current n refl in
    record {
      distinct = (now.1, v.distinct);
      made = λ i h. ground (arith, v.made i, now.0, nat_eq.beq_iff n i, h);
      current = λ i e. cc;
      counted = omega (arith, v.counted);
    }

finish_tracker-IsOnce : (t : Tracker) → IsOnce t → IsOnce (finish_tracker t)
unfolding finish_tracker lookup
finish_tracker-IsOnce t v =
    let keys = live_keys t.live in
    record {
      distinct = v.distinct;
      known = λ k x. ground (arith, contains-append keys t.reported k, v.known k x);
      proper = v.proper;
      ended_distinct =
          append-IsDistinct keys t.ended (IsMap-IsDistinct t.live v.live_map) v.ended_distinct
            (λ k x. ground (arith, contains-live_keys k t.live, v.going_on k, v.ended_known k, x));
      ended_known = λ k x. ground (
        arith,
        contains-append keys t.reported k,
        contains-append keys t.ended k,
        v.ended_known k,
        x,
      );
      live_map = tt;
      going_on = λ k x. ground (arith, x);
      spans = finished-ExecutionsOnce t.execution t.executions t.ended_executions v.spans;
    }
