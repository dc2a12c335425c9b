-- ===== src/Api/Tests.antt =====
-- Runs of the client and of a field's checks on small objects: api
use goga_tool_pybuggy.Prelude.{
  ℕ, ◌+◌, ◌≡◌, refl, Bool, true, false, none, some, List, [], ◌∷◌, Result, ok, err, Done, leb,
  traverse,
}
use goga_tool_pybuggy.Prelude.Text.{eq_text, Text, codes, starts_with}
use goga_tool_pybuggy.Prelude.Sort.{sort_by, insert_by}
use goga_tool_pybuggy.Value
use goga_tool_pybuggy.Value.{Value}
use goga_tool_pybuggy.Matchcrest.Python.{Raised, assertion_error, other, Run, returned, raised}
use goga_tool_pybuggy.Matchcrest.Values.{value_contains}
use goga_tool_pybuggy.Matchcrest.Values.Assert.{create, check_options, values_of}
use goga_tool_pybuggy.Matchcrest.Values.Meets.{meets}
use goga_tool_pybuggy.Matchcrest.Things.{num, arr, things, things-Lawful}
use goga_tool_pybuggy.Api.Web.{Web}
use goga_tool_pybuggy.Api.Paths.{
  fields, is_path_param, path_names, substitute_path_params, sub_from, match_name, token_ends,
}
use goga_tool_pybuggy.Api.Paths.Rendered.{
  Piece, plain, token, spelled, rendered, substitute_path_params-rendered,
}
use goga_tool_pybuggy.Api.Client.{
  Body, Client, Kwargs, Target, init, constructed, validate_adapter, close,
}
use goga_tool_pybuggy.Api.Client.Synced.{Synced, Reachable, made, Reachable-Synced}
use goga_tool_pybuggy.Api.Wrapper.{
  Classes, Wrapper, get_expect, Spent, get_expect-Spent, response_cls, checked,
}
use goga_tool_pybuggy.Api.Contexts.{
  step, search_in, found, descend_all, split_dots, subscript, item_of, index_in, hook_on, resolve,
  called, by_search, no_results,
}
use goga_tool_pybuggy.Api.Field.{Hamcrest, Item, Call, Field, polling_of, options_of, check}
use goga_tool_pybuggy.Api.Field.Decides.{check-quantified}

-- A web of services that only logs where requests go.
abbrev web : Web
web = record {
  Object = ℕ;
  Model = Done;
  Auth = ℕ;
  Cookies = Done;
  Response = Done;
  State = List Text;
  show = λ n. n ∷ [];
  lower = λ s. s;
  is_word = λ c. leb 97 c;
  dump_params = λ m b. [];
  dump_json = λ m b. 0;
  send = λ sent log. returned tt (sent.session.url ∷ log);
  close = λ session log. log;
}

sub_from_runs :
    substitute_path_params web (codes "/u/:id/x/:idx") ((codes ":id", 49) ∷ (codes "q", 3) ∷ [])
    ≡ (codes "/u/1/x/:idx", (codes "q", 3) ∷ [])
unfolding substitute_path_params sub_from match_name token_ends path_names sort_by insert_by
    is_path_param starts_with
sub_from_runs = refl

abbrev route : List (Piece ℕ)
route = plain (codes "/u/") ∷ token (codes ":id") 49 ∷ plain (codes "/x") ∷ []

abbrev route_params : List (Text × ℕ)
route_params = (codes ":i", 7) ∷ (codes ":id", 49) ∷ (codes "q", 3) ∷ []

substitute_path_params-rendered_example :
    (substitute_path_params web (codes "/u/:id/x") route_params).0 ≡ codes "/u/1/x"
unfolding spelled rendered is_path_param starts_with eq_text
substitute_path_params-rendered_example =
    substitute_path_params-rendered web route_params route (refl, (refl, tt))
      ((refl, (refl, (refl, tt))), ((codes "id", refl), refl, refl, ((refl, (refl, tt)), tt)))

abbrev given : Client web
given = record {
  default_adapter = "requests";
  base_url = codes "http://a";
  timeout = none;
  sessions = [];
  client = record { url = []; adapter = "requests"; timeout = none };
  auth = some 1;
  headers = ("k", "default") ∷ ("l", "left") ∷ [];
  cookies = none;
  assert_timeout = none;
  assert_delay = none;
  assert_field_class = none;
  assert_response_class = none;
  preflight = none;
}

abbrev api : Client web
api = record given {
  client = record { url = codes "http://a"; adapter = "requests"; timeout = none };
}

api-Reachable : Reachable web api
unfolding init constructed validate_adapter
api-Reachable = made given refl

Reachable-Synced_example : Synced web api
Reachable-Synced_example = Reachable-Synced web api api-Reachable

abbrev target : Target web
target = record {
  base_url = some (codes "http://b");
  url = none;
  apply_pending = none;
  ensure_service = none;
}

abbrev bound_api : Client web
bound_api = record api {
  base_url = codes "http://b";
  client = record { url = codes "http://b"; adapter = "requests"; timeout = none };
}

abbrev kwargs : Kwargs web
kwargs = record {
  params = some (fields ((codes ":id", 1) ∷ (codes "q", 2) ∷ []));
  json = some (Body.plain 7);
  headers = some (("k", "call") ∷ []);
  cookies = none;
  auth = none;
  use_aliases = false;
  adapter = none;
  rest = ("timeout", 5) ∷ ("verify", 0) ∷ [];
}

abbrev no_classes : Classes
no_classes = record {
  Class = Done;
  Module = Done;
  split_path = λ path. none;
  import_module = λ path. none;
  attribute = λ m name. none;
  is_subclass = λ c d. true;
}

abbrev wrapper : Wrapper Done
wrapper = record {
  response_class = none;
  use_autocheck = true;
  expect = none;
  autocheck_ran = false;
}

-- The auto-check counts its runs and fails.
abbrev counting : Done → ℕ → Run ℕ Done
counting d n = raised assertion_error (n + 1)

get_expect-Spent_example :
    Spent no_classes tt (λ c. c) counting (record wrapper { autocheck_ran = true }, 1)
unfolding get_expect response_cls checked
get_expect-Spent_example = get_expect-Spent no_classes tt (λ c. c) counting wrapper 0

abbrev no_subscript : Value → Value.ℤ → Result Raised Value
no_subscript v i = err (other "TypeError")

-- `{"a": {"b": null}}`
abbrev nested : Value
nested = Value.dict (
    Value.field (Value.named "a") (Value.dict (Value.field (Value.named "b") Value.null Value.end))
      Value.end)

nested_value : resolve no_subscript (by_search (codes "a.b") ∷ []) nested ≡ ok Value.null
unfolding resolve step search_in found descend_all split_dots subscript item_of eq_text index_in
    hook_on
nested_value = refl

missing_step :
    resolve no_subscript (called (by_search (codes "a") ∷ []) (by_search (codes "c"))) nested
    ≡ err (no_results (codes "c"))
unfolding resolve called step search_in found descend_all split_dots subscript item_of eq_text
    index_in hook_on
missing_step = refl

abbrev told : {S : Type 0} → Run S Bool → Run S Done
told (returned true s) = returned tt s
told (returned false s) = raised assertion_error s
told (raised e s) = raised e s

abbrev hamcrest : Hamcrest
hamcrest = record {
  assert_that = told;
  on_true = λ s. refl;
  on_false = λ s. refl;
  on_raised = λ e s. refl;
}

abbrev item : Item things
item = record {
  State = ℕ;
  time = λ s. (s, s);
  sleep = λ d s. s + d;
  update = λ s. returned tt (s + 1);
  read = λ s. record { key = ok []; value = ok (arr (1 ∷ s ∷ [])) };
}

abbrev field : Field
field = record { in_array = false; timeout = none; delay = none }

abbrev call : Call
call = record { any = false; timeout = none; delay = none }

check-quantified_example :
    check things hamcrest item 0 field (value_contains (num 5)) call 7
    ≡ some (raised assertion_error 7)
unfolding create check_options options_of polling_of values_of traverse meets
check-quantified_example =
    check-quantified things things-Lawful hamcrest item 0 field (value_contains (num 5)) call 7 tt
      [] (arr (1 ∷ 7 ∷ [])) (arr (1 ∷ 7 ∷ []) ∷ []) (false ∷ []) refl refl refl refl tt tt refl refl
