-- ===== src/Lua/Tables.antt =====
-- The functions of lua/selector.go that make tables. A key set by `RawSetString` is a field.
use panapi.Prelude.{ℕ, Option, none, some, List, map}
use panapi.Pan.{Pan, PathInterface, PathMetadata, PanPath, Geo}
use panapi.Taps.Preferences.{ConnectionPreferences}
use panapi.Taps.Stringer.{capacity_profile_string, multipath_policy_string}
use panapi.Lua.Values.{
  LValue, bool, number, float, string, ref, table, Fields, field, end, done, array, empty_table,
}

module _ (pan : Pan) where
  unfoldable pub new_lua_path_interface : PathInterface pan → LValue pan
  new_lua_path_interface intf =
      table (field "IA" (string (pan.ia_string intf.ia)) (field "IfID" (number pan intf.if_id) end))
        done

  unfoldable pub new_lua_preferences : Option ConnectionPreferences → LValue pan
  unfolding capacity_profile_string multipath_policy_string
  new_lua_preferences none = empty_table pan
  new_lua_preferences (some prefs) =
      table
        (field "ConnTimeout" (string (pan.duration_string prefs.conn_timeout)) (
          field "ConnCapacityProfile" (string (capacity_profile_string prefs.conn_capacity_profile))
            (field "MultipathPolicy" (string (multipath_policy_string prefs.multipath_policy))
              (field "IsolateSession" (bool prefs.isolate_session) end))))
        done

  geo_table : Geo pan → LValue pan
  geo_table g =
      table
        (field "Latitude" (float g.latitude)
          (field "Longitude" (float g.longitude) (field "Address" (string g.address) end)))
        done

  metadata_table : PathMetadata pan → LValue pan
  unfolding new_lua_path_interface geo_table
  metadata_table meta =
      table
        (field "MTU" (number pan meta.mtu) (
          field "Interfaces" (array pan (map new_lua_path_interface meta.interfaces)) (
            field "Latency" (array pan (map (number pan) meta.latency)) (
              field "Bandwidth" (array pan (map (number pan) meta.bandwidth)) (
                field "LinkType" (array pan (map (number pan) meta.link_type)) (
                  field "InternalHops" (array pan (map (number pan) meta.internal_hops)) (
                    field "Notes" (array pan (map string meta.notes))
                      (field "Geo" (array pan (map geo_table meta.geo)) end))))))))
        done

  metadata_field : Option (PathMetadata pan) → Fields pan
  unfolding metadata_table
  metadata_field none = end
  metadata_field (some meta) = field "Metadata" (metadata_table meta) end

  -- `newLuaPath`, of a path that is not nil
  unfoldable pub new_lua_path : PanPath pan → LValue pan
  unfolding metadata_field
  new_lua_path path =
      table
        (field "Source" (string (pan.ia_string path.source)) (
          field "Destination" (string (pan.ia_string path.destination)) (
            field "Fingerprint" (string path.fingerprint) (
              field "Expiry" (string (pan.time_string path.expiry))
                (metadata_field path.metadata)))))
        done

  -- `lua_table_slice_to_table`, of tables that are known by reference
  unfoldable pub lua_table_slice_to_table : List ℕ → LValue pan
  lua_table_slice_to_table tables = array pan (map ref tables)
