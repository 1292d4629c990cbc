-- ===== src/Pad/Recognize.antt =====
-- crates/pad/src/recognize.rs: which controllers are read, by vendor and product number. The product
-- lists are those of xbox.rs, dualsense.rs, switch.rs and steam_controller.rs.
use couchlink.Base.{
  subst, ◌↔◌, ℕ, ◌≡◌, arith, List, [], ◌∷◌, Option, none, some, Bool, true, false, not, ◌==◌, ◌&&◌,
  ◌||◌, if◌then◌else◌,
}

pub data ControllerFamily : Type 0 where
  xbox dual_sense dual_shock4 switch steam_controller unknown : ControllerFamily

pub data XboxVariant : Type 0 where
  one_s_usb one_s_bluetooth wireless1708 series_usb series_bluetooth elite_series2 : XboxVariant

abbrev pub microsoft_vid : ℕ
microsoft_vid = 0x045E

abbrev pub sony_vid : ℕ
sony_vid = 0x054C

abbrev pub nintendo_vid : ℕ
nintendo_vid = 0x057E

abbrev pub valve_vid : ℕ
valve_vid = 0x28DE

abbrev pub pid_dualsense : ℕ
pid_dualsense = 0x0CE6

abbrev pub pid_dualsense_edge : ℕ
pid_dualsense_edge = 0x0DF2

-- `XboxVariant::pid`
abbrev pub pid_of : XboxVariant → ℕ
pid_of one_s_usb = 0x02FD
pid_of one_s_bluetooth = 0x02E0
pid_of wireless1708 = 0x02FF
pid_of series_usb = 0x0B12
pid_of series_bluetooth = 0x0B13
pid_of elite_series2 = 0x0B00

-- `XboxVariant::ALL`
abbrev pub all_variants : List XboxVariant
all_variants =
    one_s_usb ∷ one_s_bluetooth ∷ wireless1708 ∷ series_usb ∷ series_bluetooth ∷ elite_series2 ∷ []

abbrev pub xbox_pids : List ℕ
xbox_pids = 0x02FD ∷ 0x02E0 ∷ 0x02FF ∷ 0x0B12 ∷ 0x0B13 ∷ 0x0B00 ∷ []

abbrev pub dualshock4_pids : List ℕ
dualshock4_pids = 0x05C4 ∷ 0x09CC ∷ 0x0BA0 ∷ []

abbrev pub switch_pids : List ℕ
switch_pids = 0x2009 ∷ 0x2006 ∷ 0x2007 ∷ 0x2008 ∷ []

abbrev pub steam_pids : List ℕ
steam_pids = 0x1102 ∷ 0x1105 ∷ 0x1106 ∷ []

unfoldable pub contains : List ℕ → ℕ → Bool
contains [] x = false
contains (y ∷ ys) x = y == x || contains ys x

unfoldable pub is_supported_xbox : ℕ → ℕ → Bool
is_supported_xbox vid pid = vid == microsoft_vid && contains xbox_pids pid

unfoldable pub is_supported_dualsense : ℕ → ℕ → Bool
is_supported_dualsense vid pid =
    vid == sony_vid && (pid == pid_dualsense || pid == pid_dualsense_edge)

unfoldable pub is_dualshock4 : ℕ → ℕ → Bool
is_dualshock4 vid pid = vid == sony_vid && contains dualshock4_pids pid

unfoldable pub is_supported_switch : ℕ → ℕ → Bool
is_supported_switch vid pid = vid == nintendo_vid && contains switch_pids pid

unfoldable pub is_supported_steam_controller : ℕ → ℕ → Bool
is_supported_steam_controller vid pid = vid == valve_vid && contains steam_pids pid

unfoldable pub is_native_supported : ℕ → ℕ → Bool
is_native_supported vid pid =
    is_supported_xbox vid pid
    || is_supported_dualsense vid pid
    || is_dualshock4 vid pid
    || is_supported_switch vid pid
    || is_supported_steam_controller vid pid

unfoldable pub find_variant : List XboxVariant → ℕ → Option XboxVariant
find_variant [] pid = none
find_variant (v ∷ vs) pid =
    let rest = find_variant vs pid in if pid_of v == pid then some v else rest

unfoldable pub xbox_variant : ℕ → Option XboxVariant
xbox_variant pid = find_variant all_variants pid

unfoldable pub classify : ℕ → ℕ → ControllerFamily
classify vid pid =
    if is_supported_xbox vid pid
    then xbox
    else if is_supported_dualsense vid pid
    then dual_sense
    else if is_dualshock4 vid pid
    then dual_shock4
    else if is_supported_switch vid pid
    then switch
    else if is_supported_steam_controller vid pid
    then steam_controller
    else unknown

-- The test of a family; what is not read at all is unknown.
abbrev pub accepts : ControllerFamily → ℕ → ℕ → Bool
accepts xbox vid pid = is_supported_xbox vid pid
accepts dual_sense vid pid = is_supported_dualsense vid pid
accepts dual_shock4 vid pid = is_dualshock4 vid pid
accepts switch vid pid = is_supported_switch vid pid
accepts steam_controller vid pid = is_supported_steam_controller vid pid
accepts unknown vid pid = not (is_native_supported vid pid)

classify-accepted : (vid pid : ℕ) → accepts (classify vid pid) vid pid ≡ true
unfolding classify is_native_supported
classify-accepted vid pid = ground arith

classify-only :
    (f : ControllerFamily) (vid pid : ℕ) → accepts f vid pid ≡ true → classify vid pid ≡ f
unfolding classify is_native_supported is_supported_xbox is_supported_dualsense is_dualshock4
    is_supported_switch is_supported_steam_controller contains
classify-only xbox vid pid a = ground arith
classify-only dual_sense vid pid a = ground arith
classify-only dual_shock4 vid pid a = ground arith
classify-only switch vid pid a = ground arith
classify-only steam_controller vid pid a = ground arith
classify-only unknown vid pid a = ground arith

-- The family of a controller is the one family whose test accepts its numbers, in whatever order the tests
-- are tried; and it is unknown exactly when no controller with these numbers is read.
pub classify_lem :
    (f : ControllerFamily) (vid pid : ℕ) → (classify vid pid ≡ f) ↔ (accepts f vid pid ≡ true)
classify_lem f vid pid = (
  λ e. subst (λ g. accepts g vid pid ≡ true) e (classify-accepted vid pid),
  classify-only f vid pid,
)

abbrev pub is_variant : Option XboxVariant → ℕ → Bool
is_variant none pid = false
is_variant (some v) pid = pid_of v == pid

-- Every Xbox product number that is accepted has a variant, which has that number, and no other has one.
pub xbox_variant_lem : (pid : ℕ) → is_variant (xbox_variant pid) pid ≡ contains xbox_pids pid
unfolding xbox_variant find_variant contains
xbox_variant_lem pid = ground arith
