-- ===== src/Cli.antt =====
-- The command `sign` of src/main.cpp: its options, the settings and the token it resolves before
-- any file is signed. `Options` holds the local variables of `sign_main` with its `Config`.
pub mod Args
pub mod Dispatch
pub mod Laws
pub mod Pool
pub mod Run
pub mod Exit
pub mod Prepare
pub mod Ready
use aas_sign.Base.{ℕ, Bool, false, List, [], Text, codes}

pub record Options : Type 0 where
  pub endpoint : Text
  pub account : Text
  pub profile : Text
  pub token : Text
  pub timestamp_url : Text
  pub no_timestamp : Bool
  pub msi_dse : Bool
  pub recursive : Bool
  pub osslsigncode : Text
  pub ca_bundle : Text
  pub insecure : Bool
  pub dump_cms : Text
  pub oidc_client_id : Text
  pub oidc_tenant_id : Text
  pub files : List Text
  pub max_parallel : ℕ
  pub as_arg : Text

-- What the loop over the arguments starts from.
abbrev pub initial : Text → Text → Bool → Options
initial default_tsa_url ca_bundle insecure = record {
  endpoint = [];
  account = [];
  profile = [];
  token = [];
  timestamp_url = default_tsa_url;
  no_timestamp = false;
  msi_dse = false;
  recursive = false;
  osslsigncode = [];
  ca_bundle = ca_bundle;
  insecure = insecure;
  dump_cms = [];
  oidc_client_id = [];
  oidc_tenant_id = [];
  files = [];
  max_parallel = 8;
  as_arg = [];
}
