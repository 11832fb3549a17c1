-- ===== src/Tests/OfMain.antt =====
-- Examples of the program's start, the summary, the lines of /proc and the ports of services.
use upstreamer.Common.{
  ℕ, ◌+◌, ◌≡◌, ◌↔◌, refl, arith, true, false, none, some, List, [], ◌∷◌, String, Char, All,
}
use upstreamer.Common.Decimal.{decimal}
use upstreamer.External.{SocketAddr}
use upstreamer.External.Fixed.{fixed}
use upstreamer.Config.{Duration}
use upstreamer.Config.Validate.{unwrap_or}
use upstreamer.Health.Discovery.{
  Service, ServiceSpec, pos, pool_annotation, and_then, annotation, service_to_origin,
}
use upstreamer.Health.Discovery.Ports.{u16_of, url_of, service_to_origin_port}
use upstreamer.Metrics.{cpu_seconds, is_whitespace}
use upstreamer.Metrics.Fields.{IsField, decimal-IsWord, line, cpu_seconds-line}
use upstreamer.Cli.{Args}
use upstreamer.Main.{Outside, main}
use upstreamer.Main.Starts.{Ending, main-Ending}
use upstreamer.Server.Listener.{accepted, accept_failed}
use upstreamer.Server.Listener.Ends.{NoneFails, NoFailure}
use upstreamer.Main.{exit_failure}
use upstreamer.Main.Ends.{Sockets, IsServable, program_exit, program_exit_lem}
use upstreamer.Tests.{text_url, config, read_page}

abbrev show_addr : SocketAddr → String
show_addr addr = decimal addr.port

abbrev show_duration : Duration → String
show_duration d = decimal d

abbrev outside : Outside String
outside = record {
  read_text = λ path. some "routes";
  from_str = λ text. some config;
  exists = λ path. true;
  read = read_page;
  version = "0.1.0";
  show_addr = show_addr;
  show_duration = show_duration;
}

abbrev args : Args
args = record { config = "upstreamer.toml"; validate = false; log_level = "info" }

main-Ending_example : Ending {F = ℕ} outside args (main outside args)
main-Ending_example = main-Ending outside args

-- The proxy's second connection cannot be accepted.
abbrev proxy_sockets : Sockets ℕ
proxy_sockets = record { bound = true; accepts = accepted 1 true ∷ accept_failed ∷ [] }

abbrev health_sockets : Sockets ℕ
health_sockets = record { bound = true; accepts = accepted 1 true ∷ [] }

program_exit_lem_example :
    ((program_exit ℕ ℕ outside args proxy_sockets health_sockets ≡ some exit_failure)
      ↔ (¬ IsServable outside args))
    × ((program_exit ℕ ℕ outside args proxy_sockets health_sockets ≡ none) ↔ (
        IsServable outside args
        × (args.validate ≡ false)
        × ((true ≡ true) × NoneFails proxy_sockets.accepts)
        × ((true ≡ true) × NoFailure health_sockets.accepts)))
program_exit_lem_example = program_exit_lem ℕ ℕ outside args proxy_sockets health_sockets

abbrev a_service : Service
a_service = record {
  name = some "blue";
  annotations = none;
  spec = some (record { cluster_ip = some "10.0.0.7"; ports = some (pos 8080 ∷ []) });
}

abbrev a_spec : ServiceSpec
a_spec = record { cluster_ip = some "10.0.0.7"; ports = some (pos 8080 ∷ []) }

service_to_origin_port_example :
    service_to_origin {Url = String} a_service
    ≡ and_then (u16_of (pos 8080)) (λ port.
      and_then
        (url_of "10.0.0.7" port)
        (λ url. some (unwrap_or (annotation a_service pool_annotation) "blue", url)))
service_to_origin_port_example =
    service_to_origin_port a_service a_spec "blue" "10.0.0.7" (pos 8080) [] refl refl refl refl refl

abbrev numbers : List ℕ
numbers = 1 ∷ 2 ∷ 3 ∷ 4 ∷ 5 ∷ 6 ∷ 7 ∷ 8 ∷ 9 ∷ 10 ∷ 11 ∷ 12 ∷ 13 ∷ 250 ∷ 50 ∷ []

abbrev spaced : List ℕ → List (String × Char)
spaced [] = []
spaced (n ∷ ns) = (decimal n, " ") ∷ spaced ns

spaced-IsField : (ns : List ℕ) → All IsField (spaced ns)
unfolding is_whitespace
spaced-IsField [] = tt
spaced-IsField (n ∷ ns) = ((decimal-IsWord n, refl), spaced-IsField ns)

cpu_seconds-line_example :
    cpu_seconds 100 (some (line (spaced numbers)))
    ≡ (
      "upstreamer_process_cpu_seconds_total",
      fixed.div (fixed.of_nat (250 + 50)) (fixed.of_nat 100),
    )
      ∷ []
cpu_seconds-line_example =
    cpu_seconds-line 100 250 50 (spaced numbers) (spaced-IsField numbers) refl refl (omega arith)
      (omega arith)
