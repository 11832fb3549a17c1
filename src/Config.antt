-- ===== src/Config.antt =====
-- The configuration (src/config/parser.rs): its records, their defaults, and the errors.
pub mod Validate
pub mod Rules
pub mod Faults
use upstreamer.Common.{ℕ, ◌*◌, ◌+◌, Bool, true, false, Option, none, some, List, String}
use upstreamer.External.{SocketAddr, v4}

-- `PathBuf`, as its text.
abbrev pub PathBuf : Type 0
PathBuf = String

-- `Duration`, in nanoseconds.
abbrev pub Duration : Type 0
Duration = ℕ

abbrev pub from_secs : ℕ → Duration
from_secs s = s * 1_000_000_000

pub data ConfigError : Type 0 where
  route_has_no_pools : String → ConfigError
  pool_has_no_origins : String → String → ConfigError
  invalid_origin_url : String → String → String → String → ConfigError
  https_not_supported : String → String → String → ConfigError
  invalid_rate_limit : ConfigError
  duplicate_route_match : Option String → Option String → ConfigError
  invalid_socket_addr : String → String → ConfigError
  error_pages_directory_not_found : PathBuf → ConfigError

pub data LbAlgorithm : Type 0 where
  round_robin weighted_latency weighted_metrics : LbAlgorithm

pub record RateLimitConfig : Type 0 where
  pub rate : ℕ
  pub burst : ℕ

pub record OriginConfig (Url : Type 0) : Type 0 where
  pub url : Url
  pub weight : Option ℕ
  pub health_check_path : Option String

pub record PoolRef (Url : Type 0) : Type 0 where
  pub name : String
  pub origins : List (OriginConfig Url)

pub record RouteConfig (Url : Type 0) : Type 0 where
  pub match_host : Option String
  pub match_path : Option String
  pub pools : List (PoolRef Url)
  pub lb_algorithm : LbAlgorithm
  pub ratelimit : Option RateLimitConfig

pub record ActiveHealthConfig : Type 0 where
  pub enabled : Bool
  pub interval : Duration
  pub timeout : Duration
  pub healthy_threshold : ℕ
  pub unhealthy_threshold : ℕ

pub record PassiveHealthConfig : Type 0 where
  pub enabled : Bool
  pub failure_threshold : ℕ
  pub success_threshold : ℕ
  pub observation_window : Duration

pub record HealthConfig : Type 0 where
  pub active : ActiveHealthConfig
  pub passive : PassiveHealthConfig

pub record KubernetesConfig : Type 0 where
  pub namespace : Option String
  pub label_selector : Option String
  pub poll_interval : Duration

pub record ErrorPage : Type 0 where
  pub code : ℕ
  pub file : String

pub record ErrorPagesConfig : Type 0 where
  pub directory : PathBuf
  pub pages : List ErrorPage

pub record ProxyConfig (Url : Type 0) : Type 0 where
  pub listen : SocketAddr
  pub metrics_addr : SocketAddr
  pub routes : List (RouteConfig Url)
  pub ratelimit : Option RateLimitConfig
  pub health : HealthConfig
  pub kubernetes : Option KubernetesConfig
  pub error_pages : Option ErrorPagesConfig

-- The defaults of missing fields.
abbrev pub default_listen : SocketAddr
default_listen = record { ip = v4 0; port = 8080 }

abbrev pub default_metrics_addr : SocketAddr
default_metrics_addr = record { ip = v4 0; port = 9090 }

abbrev pub default_lb_algorithm : LbAlgorithm
default_lb_algorithm = round_robin

abbrev pub default_active : ActiveHealthConfig
default_active = record {
  enabled = true;
  interval = from_secs 10;
  timeout = from_secs 5;
  healthy_threshold = 2;
  unhealthy_threshold = 3;
}

abbrev pub default_passive : PassiveHealthConfig
default_passive = record {
  enabled = true;
  failure_threshold = 5;
  success_threshold = 2;
  observation_window = from_secs 60;
}

abbrev pub default_health : HealthConfig
default_health = record { active = default_active; passive = default_passive }

abbrev pub default_poll_interval : Duration
default_poll_interval = from_secs 30
