-- ===== src/Server/Incidents/Replies.antt =====
-- The replies about the incidents (internal/api/incidents.go). The language's texts of an address and
-- of an instant are parameters. The confidence is a whole number, as in the model of the client.
use Prim.Native.Char.{code}
use mitigador.Base.{
  ℕ, String, Bool, true, false, Option, none, some, List, [], ◌∷◌, if◌then◌else◌, ◌==◌, is_some,
  ◌≡◌, refl, All,
}
use mitigador.Api.Http.{
  Json, null, num, str, obj, arr, end, field, Items, no_item, item, property, Response, json,
}
use mitigador.Aggregate.{Addr}
use mitigador.Records.{IncidentRow, UpdateRow, Tables, find_row}
use mitigador.Server.Incidents.{Parsed, invalid_param, good, Query, filter_of}
use mitigador.Records.Query.{Filter, Database, list}

-- The name of a group, empty for none, and the order of the updates are the database's; `fails` is an
-- error of it, or of reading a row whose rates are negative.
module _ (address : Addr → String) (date : ℕ → String) (group : Option ℕ → String)
    (by_time : List UpdateRow → List UpdateRow) where
  ended_json : Option ℕ → Json
  ended_json none = null
  ended_json (some t) = str (date t)

  unfoldable pub incident_json : IncidentRow → Json
  unfolding ended_json
  incident_json r = obj (
      field "id" (str r.id) (
        field "host_ip" (str (address r.host_ip)) (
          field "vector" (str r.vector) (
            field "hostgroup" (str (group r.hostgroup_id)) (
              field "started_at" (str (date r.started_at)) (
                field "ended_at" (ended_json r.ended_at) (
                  field "peak_pps" (num r.peak_pps)
                    (field "peak_bps" (num r.peak_bps) (field "score" (num r.score) end)))))))))

  -- `Update` has no names for JSON, so that the encoder takes those of its fields.
  unfoldable pub update_json : UpdateRow → Json
  update_json u = obj (
      field "IncidentID" (str u.incident_id) (
        field "ObservedAt" (str (date u.observed_at)) (
          field "Pps" (num u.pps) (
            field "Bps" (num u.bps)
              (field "Score" (num u.score) (field "Kind" (str u.kind) end))))))

  items_of : {A : Type 0} → (A → Json) → List A → Items
  items_of f [] = no_item
  items_of f (a ∷ xs) = item (f a) (items_of f xs)

  -- A slice that was never appended to is `null`.
  updates_json : List UpdateRow → Json
  unfolding items_of update_json
  updates_json [] = null
  updates_json (u ∷ us) = arr (items_of update_json (u ∷ us))

  -- `writeJSON` of an error; its body has the code, and the parameter if there is one.
  abbrev refused : ℕ → String → Option String → Response Json
  refused status code none = record {
    status = status;
    text = json (obj (field "error" (str code) end)) (some code);
  }
  refused status code (some param) = record {
    status = status;
    text = json (obj (field "error" (str code) (field "param" (str param) end))) (some code);
  }

  abbrev done : Json → Response Json
  done body = record { status = 200; text = json body none }

  unfoldable pub get_body : IncidentRow → List UpdateRow → Json
  unfolding incident_json updates_json
  get_body r updates =
      obj (field "incident" (incident_json r) (field "updates" (updates_json updates) end))

  updates_of : String → List UpdateRow → List UpdateRow
  updates_of id [] = []
  updates_of id (u ∷ us) =
      let rest = updates_of id us in if u.incident_id == id then u ∷ rest else rest

  found : String → List UpdateRow → Option IncidentRow → Response Json
  unfolding get_body updates_of
  found id updates none = refused 404 "not_found" none
  found id updates (some r) = done (get_body r (by_time (updates_of id updates)))

  unfoldable pub handle_get : Bool → String → Tables → Response Json
  unfolding found
  handle_get fails id t =
      if fails
      then refused 500 "internal" none
      else found id t.attack_updates (find_row id t.incidents)

  listed : Bool → Database → Tables → Parsed Filter → Response Json
  unfolding items_of incident_json list
  listed fails db t (invalid_param p) = refused 400 "invalid_param" (some p)
  listed fails db t (good f) =
      let result = list db f t.incidents in
      if fails
      then refused 500 "internal" none
      else done (
          obj (
            field "items" (arr (items_of incident_json result.items))
              (field "total" (num result.total) end)))

  unfoldable pub handle_list :
      (String → Option Addr)
      → (String → Option ℕ)
      → Bool
      → Database
      → Query
      → Tables
      → Response Json
  unfolding listed filter_of
  handle_list parse_addr parse_time fails db q t =
      listed fails db t (filter_of parse_addr parse_time q)

  -- What the page of one incident reads of the body (web/src/views/IncidentDetailView.vue), but
  -- for the updates.
  abbrev read_keys : List String
  read_keys =
      "id" ∷ "host_ip" ∷ "vector" ∷ "hostgroup" ∷ "peak_pps" ∷ "peak_bps" ∷ "score" ∷ "started_at"
      ∷ "ended_at" ∷ []

  -- A reply without what the page reads: it has none of the properties itself.
  pub record IsUnread (reply : Response Json) : Type 0 where
    pub body : Json
    pub replied : reply ≡ done body
    pub missing : All (λ key. property key body ≡ none) read_keys
    pub nested :
        (inner : Json) × (property "incident" body ≡ some inner)
        × All (λ key. is_some (property key inner) ≡ true) read_keys

  found-IsUnread :
      (id : String) (updates : List UpdateRow) (r : IncidentRow)
      → IsUnread (found id updates (some r))
  unfolding found get_body incident_json
  found-IsUnread id updates r = record {
    body = _;
    replied = refl;
    missing = (refl, (refl, (refl, (refl, (refl, (refl, (refl, (refl, (refl, tt)))))))));
    nested = (
      incident_json r,
      refl,
      (refl, (refl, (refl, (refl, (refl, (refl, (refl, (refl, (refl, tt))))))))),
    );
  }

  -- For an incident that is there, unless the database fails, the reply has none of the
  -- properties that the page of the incident reads of it, but for the updates: they are all in its
  -- property `incident`.
  pub handle_get-IsUnread :
      (id : String) (t : Tables) (r : IncidentRow)
      → find_row id t.incidents ≡ some r
      → IsUnread (handle_get false id t)
  unfolding handle_get
  handle_get-IsUnread id t r there = rw there (found-IsUnread id t.attack_updates r)
