-- ===== src/Daemon/Tests.antt =====
-- A daemon with one task and one project, and what it does with requests.
use a2ad.Common.{
  String, true, false, ◌≡◌, refl, none, some, [], ◌∷◌, ◌==◌, string_eq, text_eq, if◌then◌else◌,
  bytes, lookup,
}
use a2ad.Json.{
  Json, string, array, object, no_items, item, no_fields, field, done, value_text, member, get, put,
  utf8, utf8_char, array_at, elements, Fields,
}
use a2ad.A2aClient.Parse.{no_task}
use a2ad.A2aClient.Call.{set_member}
use a2ad.Tasks.{Task, Manager}
use a2ad.Tasks.Remote.{A2aResult, no_result}
use a2ad.Tasks.Create.{Fresh}
use a2ad.Daemon.{Host}
use a2ad.Daemon.Route.{route, route_submit, route_task}
use a2ad.Daemon.Redact.{redact_value, redact_items, redact, erase, map_member}
use a2ad.Daemon.Redact.Secrets.{IsShown, redact_value-IsShown}
use a2ad.Daemon.Dispatch.{dispatch}
use a2ad.Daemon.Routed.{route-agent}
use a2ad.Daemon.Routed.Run.{dispatch-route}

abbrev nothing : A2aResult
nothing = no_result

abbrev host : Host String
host = record {
  lib = record { parse = λ t. none; dump = λ j. []; text = λ t. "t"; spelling = λ i. "0" };
  default_agent = λ cwd. if cwd == bytes "/work" then some "worker" else none;
  read_file = λ path. none;
  client = record {
    resolve = λ agent. none;
    send_message = λ e text request context task. nothing;
    get_task = λ e id. nothing;
    cancel_task = λ e id. nothing;
    listens = false;
  };
  calls = record {
    list_tasks = λ e filter. nothing;
    create_push = λ e config. nothing;
    get_push = λ e task id. nothing;
    list_push = λ e task size token. nothing;
    delete_push = λ e task id. nothing;
    extended_card = λ e. nothing;
  };
  services = record {
    resolve_endpoint = λ agent. none;
    download = λ url auth. record {
      status = 200;
      body = [];
      transport_error = false;
      transport_error_detail = [];
      etag = none;
      response_too_large = false;
    };
    digest = λ content. "d1";
    to_string = λ n. bytes "0";
  };
  disk = record {
    file = λ d n. none;
    create_directories = λ d. none;
    canonical = λ d. some d;
    current_path = bytes "/";
    opens = λ d. true;
    creates = λ d n. true;
    writes = λ content. true;
  };
}

abbrev fresh : Fresh
fresh = record { now = "now"; id = "l2"; message_id = "m1" }

abbrev stored : Task
stored = record no_task { id = "l1"; agent = "builder" }

abbrev office : Manager
office = record { tasks = ("l1", stored) ∷ []; events = [] }

-- A cancellation in which the client claims another agent, and what is dispatched of it.
abbrev cancellation : Json
cancellation = object (
    field "agent" (string "worker")
      (field "op" (string "cancel") (field "task_id" (string "l1") no_fields)))

abbrev routed_cancellation : Json
routed_cancellation = object (
    field "agent" (string "builder")
      (field "op" (string "cancel") (field "task_id" (string "l1") no_fields)))

abbrev submission : Json
submission = object (field "cwd" (string "/work") (field "op" (string "submit") no_fields))

abbrev routed_submission : Json
routed_submission = object (
    field "agent" (string "worker")
      (field "cwd" (string "/work") (field "op" (string "submit") no_fields)))

-- An agent's push configurations, and what the daemon shows of them.
abbrev config_fields : Fields
config_fields =
    field "configs"
      (array (
        item
          (object (
            field "authentication"
              (object
                (field "credentials" (string "secret") (field "scheme" (string "Basic") no_fields)))
              (field "token" (string "secret") no_fields)))
          no_items))
      no_fields

abbrev configs : Json
configs = object config_fields

abbrev shown : Json
shown = object (
    field "configs"
      (array (
        item
          (object
            (field "authentication" (object (field "scheme" (string "Basic") no_fields)) no_fields))
          no_items))
      no_fields)

route-agent_example : value_text "agent" "" routed_cancellation ≡ done "builder"
unfolding route route_task set_member value_text member get put lookup
route-agent_example =
    route-agent host.default_agent office cancellation routed_cancellation "cancel" "l1" stored refl
      refl refl refl refl refl

dispatch-route_example :
    dispatch host fresh routed_submission office ≡ dispatch host fresh submission office
unfolding route route_submit set_member value_text member get put utf8 utf8_char
dispatch-route_example = dispatch-route host fresh submission routed_submission office office refl

redact_value-IsShown_example :
    (gs : Fields) × (shown ≡ object gs) × IsShown (array_at "configs" configs) (object gs)
unfolding redact_value redact_items redact erase map_member array_at get member elements
redact_value-IsShown_example = redact_value-IsShown config_fields shown refl

-- A list that is not the member of an object is shown as it is.
abbrev bare_list : Json
bare_list = array (item (object (field "token" (string "secret") no_fields)) no_items)

bare_list_shown : redact_value (array_at "configs" bare_list) bare_list ≡ done bare_list
unfolding redact_value redact array_at get
bare_list_shown = refl
