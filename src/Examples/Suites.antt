-- ===== src/Examples/Suites.antt =====
-- The theorems on the exit codes, with a directory of one test case.
use ojs_conformance.Common.{
  Text, text, ℤ, pos, negsuc, [], ◌∷◌, List, none, some, ◌≡◌, ◌↔◌, refl, decimal_ℤ,
}
use ojs_conformance.Runner.{collect_group, grpc_collect_group, Exchange}
use ojs_conformance.Execute.Cases.{http_exchange, grpc_exchange}
use ojs_conformance.Execute.{execute_step}
use ojs_conformance.Suite.{
  Flags, Environment, directory, parsed, http_main, grpc_main, base_url, grpc_addr,
}
use ojs_conformance.Suite.Exit.{
  Succeeds, http_report, grpc_report, http_main-Succeeds, grpc_main-Succeeds,
}
use ojs_conformance.Schema.{TestCase}
use ojs_conformance.Examples.{whole, operations}
use ojs_conformance.Examples.Steps.{codec, config}
use ojs_conformance.Examples.Servers.{a_case, server, grpc_server, code_string}

abbrev flags : Flags
flags = record {
  url = text "http://localhost:8080/";
  level = negsuc 0;
  category = [];
  test_id = [];
  redis_url = [];
  report_file = [];
}

abbrev environment : (Text → List (TestCase ℤ) → TestCase ℤ → Exchange ℤ) → Environment ℤ
environment exchange = record {
  test_url = [];
  files = (text "suites", directory) ∷ (text "suites/a.json", parsed a_case) ∷ [];
  sort = λ tests. tests;
  connect = λ addr. none;
  redis = λ url. some (text "refused");
  exchange = exchange;
  write_report = λ path report. none;
}

abbrev over_http : Environment ℤ
over_http = environment (λ url before tc. http_exchange whole operations codec url config server)

abbrev over_grpc : Environment ℤ
over_grpc =
    environment
      (λ addr before tc. grpc_exchange whole operations codec code_string config grpc_server)

http_main_succeeds : http_main over_http flags ≡ 0
unfolding http_main execute_step decimal_ℤ
http_main_succeeds = refl

-- No test has the level 3.
http_main_without_tests : http_main over_http (record flags { level = pos 3 }) ≡ 2
unfolding http_main
http_main_without_tests = refl

http_main-Succeeds_example :
    (http_main over_http flags ≡ 0)
    ↔ Succeeds over_http collect_group
        (base_url over_http flags)
        (http_report over_http flags)
        flags
http_main-Succeeds_example = http_main-Succeeds over_http flags

grpc_main-Succeeds_example : (grpc_main over_grpc flags ≡ 0) ↔ (
    (over_grpc.connect (grpc_addr over_grpc flags) ≡ none)
    × Succeeds over_grpc grpc_collect_group
        (grpc_addr over_grpc flags)
        (grpc_report over_grpc flags)
        flags)
grpc_main-Succeeds_example = grpc_main-Succeeds over_grpc flags
