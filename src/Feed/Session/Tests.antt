-- ===== src/Feed/Session/Tests.antt =====
-- A session on a hub that knows one subject: it is seeded, and then follows an update.
use pok.Feed.Client.{Envelope, new_client, enqueue, take}
use pok.Feed.Client.Coalesce.{last_update}
use pok.Feed.Hub.Steps
use pok.Feed.Hub.Steps.{publishes, act, update}
use pok.Feed.Hub.{Hub, store, new_hub, broadcast, publish, snapshot, admit, register}
use pok.Feed.Session.Delivery.{delivery}
use pok.Feed.Session.Json.{HoldsJson, RunsJson, write_json-Reach}
use pok.Feed.Session.Ended.{write_out, wind_up, IsOver}
use pok.Feed.Session.Over.{wind_up-ends}
use pok.Feed.Session.Progress.{serve_all, catch_up, catch_up-delivers}
use pok.Feed.Session.{
  accepting, sending, live, gone, World, Event, accepts, seeds, writes, settles, wakes, collects,
  shuts_down, open_session, write_json, serve, Reach, here, own, other,
}
use pok.Prelude.Bytes.{Bytes, bytes, bytes_beq, bytes_key}
use pok.Prelude.Int.{pos}
use pok.Prelude.Lists.{contains, length}
use pok.Prelude.Maps.{lookup, has, index, insert, range}
use pok.Prelude.{ℕ, ◌≡◌, ◌≢◌, refl, Bool, true, false, some, List, [], ◌∷◌}

abbrev nodes : ℕ → Envelope
nodes n = record {
  subject = bytes "cluster/nodes";
  topic = bytes "cluster/nodes";
  ts = pos n;
  payload = bytes "{}";
}

-- Stands for json.Valid.
abbrev any_json : Bytes → Bool
any_json b = true

abbrev known : Hub
known = publish [] (nodes 1) (new_hub 2)

known-Reach : Steps.Reach (new_hub 2) known
unfolding act new_hub contains
known-Reach =
    Steps.Reach.next (publishes [] (nodes 1)) Steps.Reach.here
      (record { once = tt; all = λ k. refl }) refl

abbrev joined : World
joined = record {
  hub = admit known;
  client = 0;
  phase = accepting;
  received = [];
  messages_sent = 0;
}

known-opens : open_session known ≡ some joined
unfolding open_session register publish new_hub admit
known-opens = refl

abbrev seeding : World
seeding = record joined { phase = sending (nodes 1 ∷ []) }

abbrev settled : World
settled = record joined { phase = live; received = nodes 1 ∷ []; messages_sent = 1 }

seeding-Reach : Reach any_json joined seeding
unfolding serve snapshot range lookup admit publish new_hub insert has contains bytes_beq
seeding-Reach =
    own (seeds (bytes "cluster/nodes" ∷ [])) (own accepts here tt refl)
      (record { once = (refl, tt); all = λ k. refl }) refl

settled-Reach : Reach any_json joined settled
unfolding serve
settled-Reach = own settles (own (writes true) seeding-Reach tt refl) tt refl

abbrev behind : World
behind = record settled { hub = publish (0 ∷ []) (nodes 2) settled.hub }

behind-Reach : Reach any_json joined behind
unfolding act admit publish new_hub contains
behind-Reach =
    other (publishes (0 ∷ []) (nodes 2)) behind.hub settled-Reach tt
      (record { once = (refl, tt); all = λ k. refl }) refl

settled-idle : (settled.hub.heap settled.client).notify ≡ false
unfolding admit publish new_hub broadcast new_client
settled-idle = refl

known-HoldsJson : HoldsJson any_json known.state
known-HoldsJson = record { at = λ k e p. refl }

seeding-RunsJson : RunsJson any_json seeding-Reach
unfolding seeding-Reach
seeding-RunsJson = tt

behind-RunsJson : RunsJson any_json behind-Reach
unfolding behind-Reach settled-Reach seeding-Reach
behind-RunsJson = (refl, tt)

delivery_example :
    ((k : Bytes) → last_update k settled.received ≡ lookup k settled.hub.state)
    × (settled.messages_sent ≡ length settled.received)
delivery_example =
    delivery any_json 2 known joined settled known-Reach known-opens settled-Reach refl settled-idle

write_json-Reach_example : write_json any_json (nodes 1) false ≡ false
write_json-Reach_example =
    write_json-Reach any_json 2 known joined seeding (nodes 1) [] false known-Reach known-HoldsJson
      known-opens seeding-Reach seeding-RunsJson refl

catch_up-delivers_example :
    (v : World) × (serve_all any_json (catch_up any_json behind) behind ≡ some v)
    × (v.phase ≡ live)
    × ((k : Bytes) → last_update k v.received ≡ lookup k behind.hub.state)
catch_up-delivers_example =
    catch_up-delivers any_json 2 known joined behind known-Reach known-HoldsJson known-opens
      behind-Reach behind-RunsJson refl

-- The browser is sent the update that came while the session waited.
behind_catches_up : (catch_up any_json behind ≡ wakes ∷ collects ∷ writes true ∷ settles ∷ [])
unfolding catch_up admit publish new_hub broadcast store enqueue take index insert has new_client
    bytes_beq
behind_catches_up = refl

abbrev any_connection : Envelope → Bool
any_connection e = true

abbrev ended : List Event
ended = writes true ∷ settles ∷ shuts_down ∷ []

seeding_winds_up : wind_up any_json [] any_connection seeding.phase seeding ≡ ended
unfolding wind_up write_out write_json
seeding_winds_up = refl

seeding-ne-gone : seeding.phase ≢ gone
seeding-ne-gone e = cc

wind_up-ends_example :
    (v : World) × (serve_all any_json
        (wind_up any_json [] any_connection seeding.phase seeding)
        seeding
      ≡ some v)
    × IsOver seeding v
wind_up-ends_example =
    wind_up-ends any_json [] any_connection 2 known joined seeding known-Reach known-opens
      seeding-Reach seeding-ne-gone
