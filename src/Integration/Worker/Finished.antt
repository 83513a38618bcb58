-- ===== src/Integration/Worker/Finished.antt =====
-- What `get_finished` of mini_llmcache/integration/vllm_connector.py reports.
use mini_llmcache.Base.{
  ◌≡◌, refl, List, [], ◌∷◌, ◌++◌, Option, none, some, Bool, true, false, not, ◌&&◌, ◌||◌, elem,
  Bool-cases, inl, inr, arith, if◌then◌else◌,
}
use mini_llmcache.Base.Dict.{Dict, IsDict, lookup, contains, keys}
use mini_llmcache.Protocol.{Text, text_dec}
use mini_llmcache.Integration.Worker.{
  DeviceFuture, Progress, done, Worker, live, live_stores, union, in_stores, loaded, loading,
  get_finished,
}

elem-append :
    (x : Text) (xs ys : List Text)
    → elem text_dec x (xs ++ ys) ≡ (elem text_dec x xs || elem text_dec x ys)
elem-append x [] ys = refl
elem-append x (y ∷ xs) ys = ground (arith, elem-append x xs ys)

elem-union :
    (x : Text) (pending ids : List Text)
    → elem text_dec x (union pending ids) ≡ (elem text_dec x pending || elem text_dec x ids)
unfolding union
elem-union x pending [] = ground arith
elem-union x pending (id ∷ ids) = ground (
  arith,
  elem-union x pending ids,
  elem-union x (pending ++ (id ∷ [])) ids,
  elem-append x pending (id ∷ []),
)

elem-in_stores :
    (x : Text) (there : Bool) (d : Dict Text (List DeviceFuture)) (ids : List Text)
    → elem text_dec x (in_stores there d ids)
      ≡ (elem text_dec x ids && (if contains text_dec x d then there else not there))
unfolding in_stores
elem-in_stores x there d [] = refl
elem-in_stores x there d (id ∷ ids) = ground (arith, elem-in_stores x there d ids)

-- Whether a store of the request is still under way.
abbrev pub all_done : Progress → List DeviceFuture → Bool
all_done p [] = true
all_done p (f ∷ fs) = done p f && all_done p fs

abbrev pub is_storing : Progress → Option (List DeviceFuture) → Bool
is_storing p none = false
is_storing p (some fs) = not (all_done p fs)

live_none : (p : Progress) (fs : List DeviceFuture) → all_done p fs ≡ true → live p fs ≡ []
unfolding live
live_none p [] h = refl
live_none p (f ∷ fs) h = ground (arith, live_none p fs)

live_some :
    (p : Progress) (fs : List DeviceFuture)
    → all_done p fs ≡ false
    → (f : DeviceFuture) × (more : List DeviceFuture) × (live p fs ≡ f ∷ more)
unfolding live
live_some p [] h = cc
live_some p (f ∷ fs) h = elim (Bool-cases (done p f)) [
  | inl finished ↦ let (g, more, e) = live_some p fs (ground arith) in (g, more, ground (arith, e))
  | inr unfinished ↦ (f, live p fs, ground arith)
]

absent_live :
    (x : Text) (p : Progress) (d : Dict Text (List DeviceFuture))
    → elem text_dec x (keys d) ≡ false
    → contains text_dec x (live_stores p d) ≡ false
unfolding live_stores
absent_live x p [] h = refl
absent_live x p ((id, fs) ∷ d) h = elim (Bool-cases (all_done p fs)) [
  | inl finished ↦ rw (live_none p fs finished, live_stores) (absent_live x p d (ground arith))
  | inr waits ↦
      let (f, more, e) = live_some p fs waits in
      rw (e, live_stores) (ground (arith, absent_live x p d))
]

contains-live_stores :
    (x : Text) (p : Progress) (d : Dict Text (List DeviceFuture))
    → IsDict text_dec d
    → contains text_dec x (live_stores p d) ≡ is_storing p (lookup text_dec x d)
unfolding live_stores
contains-live_stores x p [] h = refl
contains-live_stores x p ((id, fs) ∷ d) h = elim (Bool-cases (all_done p fs)) [
  | inl finished ↦
      rw (live_none p fs finished, live_stores)
        (ground (arith, absent_live x p d, contains-live_stores x p d h.1))
  | inr waits ↦
      let (f, more, e) = live_some p fs waits in
      rw (e, live_stores) (ground (arith, contains-live_stores x p d h.1))
]

abbrev pub is_loaded : Progress → Option DeviceFuture → Bool
is_loaded p none = false
is_loaded p (some f) = done p f

absent_loaded :
    (x : Text) (p : Progress) (d : Dict Text DeviceFuture)
    → elem text_dec x (keys d) ≡ false
    → elem text_dec x (loaded p d) ≡ false
unfolding loaded
absent_loaded x p [] h = refl
absent_loaded x p ((id, f) ∷ d) h = ground (arith, absent_loaded x p d)

elem-loaded :
    (x : Text) (p : Progress) (d : Dict Text DeviceFuture)
    → IsDict text_dec d
    → elem text_dec x (loaded p d) ≡ is_loaded p (lookup text_dec x d)
unfolding loaded
elem-loaded x p [] h = refl
elem-loaded x p ((id, f) ∷ d) h = ground (arith, absent_loaded x p d, elem-loaded x p d h.1)

absent_loading :
    (x : Text) (p : Progress) (d : Dict Text DeviceFuture)
    → elem text_dec x (keys d) ≡ false
    → lookup text_dec x (loading p d) ≡ none
unfolding loading
absent_loading x p [] h = refl
absent_loading x p ((id, f) ∷ d) h = ground (arith, absent_loading x p d)

lookup-loading :
    (x : Text) (p : Progress) (d : Dict Text DeviceFuture)
    → IsDict text_dec d
    → lookup text_dec x (loading p d)
      ≡ (if is_loaded p (lookup text_dec x d) then none else lookup text_dec x d)
unfolding loading
lookup-loading x p [] h = refl
lookup-loading x p ((id, f) ∷ d) h = ground (arith, absent_loading x p d, lookup-loading x p d h.1)

-- `get_finished` reports a request as sent exactly if it has been finished, now or before, and none
-- of its stores is under way, and keeps the other finished ones pending; it reports a load exactly
-- if its future is done, and then forgets it, and keeps the other loads.
pub get_finished_lem :
    (p : Progress) (ids : List Text) (w : Worker)
    → IsDict text_dec w.store_futures
    → IsDict text_dec w.load_futures
    → (id : Text)
    → let (reported, w') = get_finished p ids w in
      let finished = elem text_dec id w.pending_sends || elem text_dec id ids in
      let storing = is_storing p (lookup text_dec id w.store_futures) in
      let arrived = is_loaded p (lookup text_dec id w.load_futures) in
      (elem text_dec id reported.0 ≡ (finished && not storing))
      × (elem text_dec id w'.pending_sends ≡ (finished && storing))
      × (elem text_dec id reported.1 ≡ arrived)
      × (lookup text_dec id w'.load_futures
          ≡ (if arrived then none else lookup text_dec id w.load_futures))
unfolding get_finished
get_finished_lem p ids w stores loads id =
    let pending = union w.pending_sends ids in
    let there = contains-live_stores id p w.store_futures stores in
    let known = elem-union id w.pending_sends ids in
    (
      ground (arith, elem-in_stores id false (live_stores p w.store_futures) pending, there, known),
      ground (arith, elem-in_stores id true (live_stores p w.store_futures) pending, there, known),
      elem-loaded id p w.load_futures loads,
      lookup-loading id p w.load_futures loads,
    )
