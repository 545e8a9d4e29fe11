-- ===== src/Hal/Examples.antt =====
-- The claim about `HAL_Init` at power on.
use splongle_os.Base.{refl}
use splongle_os.Hal.{hal_init}
use splongle_os.Hal.Sample.{hardware, numbers, bridge, power_on, numbers-IsSteady}
use splongle_os.Hal.Ready.{IsStarted, hal_init-IsStarted}

hal_init-IsStarted_example : IsStarted hardware numbers bridge power_on (hal_init hardware power_on)
hal_init-IsStarted_example =
    hal_init-IsStarted hardware numbers bridge power_on
      (record { first = λ bus. refl; second = λ bus. refl }) numbers-IsSteady (λ log. refl)
