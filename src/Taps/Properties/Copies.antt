-- ===== src/Taps/Properties/Copies.antt =====
-- A copy reads like the original.
use panapi.Prelude.{String, ◌≡◌, refl}
use panapi.Prelude.GoMap.{lookup, lookup-copy_map}
use panapi.Taps.Preferences.{ConnectionPreferences}
use panapi.Taps.Properties.{
  SelectionProperties, copy_selection, TransportProperties, copy_transport_properties,
  copy_connection_preferences,
}

-- A copy of selection properties has every preference of the original, for each interface and each
-- provisioning domain too; copies of transport properties and connection preferences are equal to
-- the original.
pub copies_agree :
    (sp : SelectionProperties) (tp : TransportProperties) (cp : ConnectionPreferences)
    → ((i : String) → lookup i (copy_selection sp).interface ≡ lookup i sp.interface)
      × ((d : String) → lookup d (copy_selection sp).pv_d ≡ lookup d sp.pv_d)
      × (record (copy_selection sp) { interface = sp.interface; pv_d = sp.pv_d } ≡ sp)
      × (copy_transport_properties tp ≡ tp)
      × (copy_connection_preferences cp ≡ cp)
unfolding copy_selection copy_transport_properties copy_connection_preferences
copies_agree sp tp cp =
    (λ i. lookup-copy_map i sp.interface, λ d. lookup-copy_map d sp.pv_d, refl, refl, refl)
