-- ===== src/Tests/Samples.antt =====
-- A deployment with one provider, and its world.
use drukbox.Base.{List, true, false, none, some, [], ◌∷◌}
use drukbox.Base.Op.{ok}
use drukbox.Exchange.Secret.{http_error}
use drukbox.Providers.{Provider}
use drukbox.Hosts.Model.{Host, HostStatus}
use drukbox.Hosts.World.{Env, World, Db, Settings}
use drukbox.Hosts.Create.{HostRequest}

abbrev pub docker : Provider
docker = record {
  name = "docker";
  default_image = "base";
  needs_value = false;
  gateway = false;
  supports_instance_type = false;
  supports_disk_gb = false;
  tailnet = false;
  max_lifetime = some 900000;
  bootstrap_ssh_timeout = 2000;
  create_vm = λ r. ok (record {
    provider_id = "p";
    name = r.name;
    ssh_username = "root";
    ssh_host = "vm";
    ssh_port = 2200;
    private_key = some "key";
    public_key = none;
  });
  delete_vm = λ name. ok tt;
  put_secret = λ r. ok [];
  delete_secrets = λ name. ok tt;
}

abbrev pub settings : Settings
settings = record {
  secrets_proxy_url = "";
  secrets_proxy_ca_file = "";
  device_discovery_timeout = 180;
  idempotency_key_ttl_hours = 24;
  provisioning_grace_seconds = 600;
  lease_default_ttl = 86400;
  pool_sizes = [];
  host_limits = ("docker", 3) ∷ [];
  host_limit_per_service_account = some 2;
  pool_size = 1;
  pool_host_max_age_hours = 4;
  pool_max_creates_per_tick = 2;
  gateway_ssh_host = "";
  gateway_ssh_port = 2222;
}

abbrev pub quiet : Env
quiet = record {
  settings = settings;
  registry = record { factories = ("docker", docker) ∷ []; default_host_provider = "docker" };
  tailscale = none;
  others = λ n db. db;
  delay = λ n. 10;
  answer = λ n. http_error "ConnectError";
  token = λ n. n ∷ [];
  uuid7 = λ n. n;
  keyscan = λ n host port. some ("vm ssh-ed25519 AAAA", "");
  sha256 = λ secret. "digest";
  bootstrap_script = "";
}

abbrev pub empty_db : Db
empty_db = record { hosts = []; keys = []; templates = [] }

abbrev pub start : World
start = record { db = empty_db; clock = 1000; turn = 0; fresh = 1; log = [] }

abbrev pub plain_request : HostRequest
plain_request = record {
  service_account = some "ci";
  env = [];
  secrets = [];
  image = none;
  template = none;
  expires_at = none;
  permanent = false;
  provider = none;
  instance_type = none;
  disk_gb = none;
}

abbrev pub warm_host : Host
warm_host = record {
  id = 7;
  env = [];
  secrets = [];
  name = "sb-7";
  service_account = none;
  status = HostStatus.active;
  provider = "docker";
  image = "base";
  instance_type = none;
  disk_gb = none;
  external_ssh_host = "vm";
  external_ssh_port = 2200;
  ssh_username = "root";
  public_key = "";
  internal_ssh_host = none;
  known_hosts = "vm ssh-ed25519 AAAA";
  tailscale_device_id = none;
  created_at = 500;
  updated_at = 900;
  activated_at = some 900;
  expires_at = some 700000;
  claimed_at = none;
  pool_member = true;
  last_error = "";
  private_key = none;
}

abbrev pub new_row : Host
new_row = record warm_host { status = HostStatus.provisioning; activated_at = none }

abbrev pub with_rows : List Host → World
with_rows hs = record start { db = record empty_db { hosts = hs } }
