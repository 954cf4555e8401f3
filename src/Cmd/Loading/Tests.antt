-- ===== src/Cmd/Loading/Tests.antt =====
-- The errors of a configuration that is not there, or cannot be parsed.
use log_shipper.Base.{◌≡◌, refl, true, false}
use log_shipper.Cmd.Loading.{Files, loaded, failed, load_config}

abbrev files : Files
files = record {
  is_absent = λ path. false;
  read_file = λ path. loaded "[";
  unmarshal = λ text conf. failed "yaml: line 1";
}

absent_test :
    load_config (record files { is_absent = λ path. true }) "c.yaml"
    ≡ failed "config file not found, looking in: c.yaml"
unfolding load_config
absent_test = refl

malformed_test : load_config files "c.yaml" ≡ failed "error while parsing config file: yaml: line 1"
unfolding load_config
malformed_test = refl
