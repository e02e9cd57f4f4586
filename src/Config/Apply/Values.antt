-- ===== src/Config/Apply/Values.antt =====
-- A token that is no value leaves the settings as they are.
use spiketrace.Prelude.{◌≡◌, refl, false, Bytes, if_both, arith}
use spiketrace.Double.{Double}
use spiketrace.Config.Types.{Config}
use spiketrace.Config.Toml.{Parser}
use spiketrace.Config.Apply.{
  is_float, is_number, is_string, is_boolean, is_value, apply_anomaly_detection, apply_sampling,
  apply_process_collection, apply_output, apply_features, apply_advanced, apply_trigger,
  apply_log_management, apply_config_value,
}

module _ {F : Type 0} ⦃d : Double F⦄ where
  anomaly_detection-no_value :
      (config : Config F) (key : Bytes) (p : Parser F)
      → is_value p.token ≡ false
      → apply_anomaly_detection config key p ≡ config
  unfolding apply_anomaly_detection
  anomaly_detection-no_value config key p h =
      let no_float : is_float p.token ≡ false = ground arith in
      let no_number : is_number p.token ≡ false = ground arith in ground arith

  sampling-no_value :
      (config : Config F) (key : Bytes) (p : Parser F)
      → is_value p.token ≡ false
      → apply_sampling config key p ≡ config
  unfolding apply_sampling
  sampling-no_value config key p h =
      let no_float : is_float p.token ≡ false = ground arith in
      let no_number : is_number p.token ≡ false = ground arith in ground arith

  process_collection-no_value :
      (config : Config F) (key : Bytes) (p : Parser F)
      → is_value p.token ≡ false
      → apply_process_collection config key p ≡ config
  unfolding apply_process_collection
  process_collection-no_value config key p h =
      let no_number : is_number p.token ≡ false = ground arith in ground arith

  output-no_value :
      (config : Config F) (key : Bytes) (p : Parser F)
      → is_value p.token ≡ false
      → apply_output config key p ≡ config
  unfolding apply_output
  output-no_value config key p h =
      let no_string : is_string p.token ≡ false = ground arith in ground arith

  features-no_value :
      (config : Config F) (key : Bytes) (p : Parser F)
      → is_value p.token ≡ false
      → apply_features config key p ≡ config
  unfolding apply_features
  features-no_value config key p h =
      let no_boolean : is_boolean p.token ≡ false = ground arith in ground arith

  advanced-no_value :
      (config : Config F) (key : Bytes) (p : Parser F)
      → is_value p.token ≡ false
      → apply_advanced config key p ≡ config
  unfolding apply_advanced
  advanced-no_value config key p h =
      let no_float : is_float p.token ≡ false = ground arith in ground arith

  trigger-no_value :
      (config : Config F) (key : Bytes) (p : Parser F)
      → is_value p.token ≡ false
      → apply_trigger config key p ≡ config
  unfolding apply_trigger
  trigger-no_value config key p h =
      let no_string : is_string p.token ≡ false = ground arith in ground arith

  log_management-no_value :
      (config : Config F) (key : Bytes) (p : Parser F)
      → is_value p.token ≡ false
      → apply_log_management config key p ≡ config
  unfolding apply_log_management
  log_management-no_value config key p h =
      let no_boolean : is_boolean p.token ≡ false = ground arith in
      let no_number : is_number p.token ≡ false = ground arith in
      let no_string : is_string p.token ≡ false = ground arith in ground arith

  pub apply_config_value-no_value :
      (config : Config F) (section key : Bytes) (p : Parser F)
      → is_value p.token ≡ false
      → apply_config_value config section key p ≡ config
  unfolding apply_config_value
  apply_config_value-no_value config section key p h =
      if_both (λ c. c ≡ config) _ (anomaly_detection-no_value config key p h)
        (if_both (λ c. c ≡ config) _ (sampling-no_value config key p h)
          (if_both (λ c. c ≡ config) _ (process_collection-no_value config key p h)
            (if_both (λ c. c ≡ config) _ (output-no_value config key p h)
              (if_both (λ c. c ≡ config) _ (features-no_value config key p h)
                (if_both (λ c. c ≡ config) _ (advanced-no_value config key p h)
                  (if_both (λ c. c ≡ config) _ (trigger-no_value config key p h)
                    (if_both (λ c. c ≡ config) _ (log_management-no_value config key p h)
                      refl)))))))
