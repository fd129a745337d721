-- ===== src/Debug/Names.antt =====
-- The texts of constants in debug output.
use Prim.Native.String.{String}
use virtualdisk.Prelude.{
  ℕ, ◌≡◌, ◌≢◌, refl, none, some, List, [], ◌∷◌, ◌++◌, arith, All, ==_self, All-suffix,
}
use virtualdisk.Debug.{
  codes, case_string, default, mode_sense_pages, srb_functions, scsi_commands, pnp_minors, id_types,
  power_minors, system_power_states, device_power_states, relation_types,
  mode_sense_page_code_to_string, srb_function_to_string, scsi_command_to_string,
  pnp_minor_function_string, dbg_device_id_string, power_minor_function_string,
  dbg_system_power_string, dbg_device_power_string, dbg_device_relation_string,
}

-- The nine functions from a code to a text.
pub data Table : Type 0 where
  of_mode_sense_pages of_srb_functions of_scsi_commands of_pnp_minors of_id_types of_power_minors
        of_system_power_states of_device_power_states of_relation_types :
      Table

-- The constants that the switch of a function names, and the function.
abbrev pub names : Table → List String
names of_mode_sense_pages = mode_sense_pages
names of_srb_functions = srb_functions
names of_scsi_commands = scsi_commands
names of_pnp_minors = pnp_minors
names of_id_types = id_types
names of_power_minors = power_minors
names of_system_power_states = system_power_states
names of_device_power_states = device_power_states
names of_relation_types = relation_types

abbrev pub to_string : Table → (String → ℕ) → ℕ → List ℕ
to_string of_mode_sense_pages = mode_sense_page_code_to_string
to_string of_srb_functions = srb_function_to_string
to_string of_scsi_commands = scsi_command_to_string
to_string of_pnp_minors = pnp_minor_function_string
to_string of_id_types = dbg_device_id_string
to_string of_power_minors = power_minor_function_string
to_string of_system_power_states = dbg_system_power_string
to_string of_device_power_states = dbg_device_power_string
to_string of_relation_types = dbg_device_relation_string

-- What the compiler demands of a switch: the labels have different values.
abbrev pub IsSwitch : (String → ℕ) → List String → Type 0
IsSwitch value [] = Unit {0}
IsSwitch value (name ∷ names) = All (λ other. value other ≢ value name) names × IsSwitch value names

case_string-names :
    (value : String → ℕ) (before : List String) (name : String) (after : List String)
    → IsSwitch value (before ++ name ∷ after)
    → case_string value (before ++ name ∷ after) (value name) ≡ some name
unfolding case_string
case_string-names value [] name after h = ground (arith, ==_self (value name))
case_string-names value (x ∷ before) name after h =
    let other = (All-suffix (λ (y : String). value y ≢ value x) before (name ∷ after) h.0).0 in
    ground (arith, other, case_string-names value before name after h.1)

case_string_other :
    (value : String → ℕ) (names : List String) (n : ℕ)
    → All (λ name. value name ≢ n) names
    → case_string value names n ≡ none
unfolding case_string
case_string_other value [] n h = refl
case_string_other value (name ∷ names) n h =
    ground (arith, h.0, case_string_other value names n h.1)

unfolds_to :
    (t : Table) (value : String → ℕ) (n : ℕ)
    → (other : List ℕ) × (to_string t value n ≡ default other (case_string value (names t) n))
unfolding mode_sense_page_code_to_string srb_function_to_string scsi_command_to_string
    pnp_minor_function_string dbg_device_id_string power_minor_function_string
    dbg_system_power_string dbg_device_power_string dbg_device_relation_string
unfolds_to of_mode_sense_pages value n = (_, refl)
unfolds_to of_srb_functions value n = (_, refl)
unfolds_to of_scsi_commands value n = (_, refl)
unfolds_to of_pnp_minors value n = (_, refl)
unfolds_to of_id_types value n = (_, refl)
unfolds_to of_power_minors value n = (_, refl)
unfolds_to of_system_power_states value n = (_, refl)
unfolds_to of_device_power_states value n = (_, refl)
unfolds_to of_relation_types value n = (_, refl)

-- If the labels of the switch have different values, each of the nine functions takes the value
-- of a constant that it names to the name of this constant.
to_string-names :
    (t : Table) (value : String → ℕ) (before : List String) (name : String) (after : List String)
    → names t ≡ before ++ name ∷ after
    → IsSwitch value (names t)
    → to_string t value (value name) ≡ codes name
to_string-names t value before name after split h =
    let (other, e) = unfolds_to t value (value name) in
    let named = case_string-names value before name after (rw split at h) in
    rw (e, split, named) refl
