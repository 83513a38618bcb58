-- ===== src/Tests/Worker.antt =====
-- `get_finished` with one request whose store is under way and one whose load has arrived.
use mini_llmcache.Base.{
  ◌≡◌, refl, [], ◌∷◌, some, none, true, elem, ◌&&◌, ◌||◌, not, if◌then◌else◌, ◌==◌,
}
use mini_llmcache.Base.Dict.{lookup}
use mini_llmcache.Protocol.{Text, text_dec}
use mini_llmcache.Integration.Worker.{Worker, Progress, get_finished}
use mini_llmcache.Integration.Worker.Finished.{is_storing, is_loaded, get_finished_lem}

abbrev stored : Text
stored = 1 ∷ []

abbrev fetched : Text
fetched = 2 ∷ []

abbrev progress : Progress
progress = record { answered = λ n. n == 1; is_set = λ n. true }

abbrev worker : Worker
worker = record {
  instance_id = 9;
  block_size = 2;
  has_transfer = true;
  store_futures = (stored, record { future = 0; done_event = none } ∷ []) ∷ [];
  load_futures = (fetched, record { future = 1; done_event = some 0 }) ∷ [];
  pending_sends = fetched ∷ [];
  next_future = 2;
  next_event = 1;
  sent = [];
  started = [];
}

get_finished_lem_example :
    let (reported, w') = get_finished progress (stored ∷ []) worker in
    let finished =
      elem text_dec stored worker.pending_sends || elem text_dec stored (stored ∷ []) in
    let storing = is_storing progress (lookup text_dec stored worker.store_futures) in
    let arrived = is_loaded progress (lookup text_dec stored worker.load_futures) in
    (elem text_dec stored reported.0 ≡ (finished && not storing))
    × (elem text_dec stored w'.pending_sends ≡ (finished && storing))
    × (elem text_dec stored reported.1 ≡ arrived)
    × (lookup text_dec stored w'.load_futures
        ≡ (if arrived then none else lookup text_dec stored worker.load_futures))
get_finished_lem_example =
    get_finished_lem progress (stored ∷ []) worker (refl, tt) (refl, tt) stored
