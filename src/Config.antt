-- ===== src/Config.antt =====
-- internal/config/config.go: the configuration of a tool. A nil map or pointer is `none`.
pub mod Validate
pub mod Load
mod Tests
use jig_mcp.Prelude.{Str, Map, Bool, List, Option}
use jig_mcp.Prelude.Int.{ℤ}
use jig_mcp.Value.{Value}

pub record PlatformConfig : Type 0 where
  pub command : Str
  pub args : List Str

pub record SandboxConfig : Type 0 where
  pub type : Str
  pub image : Str

pub record TerminalConfig : Type 0 where
  pub enabled : Bool
  pub allowlist : List Str
  pub max_output_size : ℤ

pub record HttpConfig : Type 0 where
  pub url : Str
  pub method : Str
  pub headers : Map Str
  pub query_params : Map Str
  pub allowed_url_prefixes : List Str

pub record ToolConfig : Type 0 where
  pub name : Str
  pub description : Str
  pub input_schema : Option (Map Value)
  pub platforms : Option (Map PlatformConfig)
  pub http : Option HttpConfig
  pub timeout : Str
  pub max_memory_mb : ℤ
  pub max_cpu_percent : ℤ
  pub sandbox : Option SandboxConfig
  pub terminal : Option TerminalConfig
