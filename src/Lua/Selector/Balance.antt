-- ===== src/Lua/Selector/Balance.antt =====
-- What the methods of `LuaSelector` leave on the interpreter's stack.
use panapi.Prelude.{
  ℕ, ◌+◌, String, Option, none, some, List, ◌≡◌, ◌≢◌, refl, arith, Option-cases, inl, inr,
}
use panapi.Golang.{Err, returns}
use panapi.Pan.{Pan, PathInterface, PanPath}
use panapi.Taps.Preferences.{ConnectionPreferences}
use panapi.Lua.Values.{LValue}
use panapi.Lua.Interpreter.{Interpreter, IsDocumented}
use panapi.Lua.Selector.Renewed.{initialized, refreshed, initialize-eq, refresh-eq}
use panapi.Lua.Selector.{
  LuaSelector, initialize, set_preferences, path, path_down, refresh, close, periodic, path_result,
}

module _ {pan : Pan} {L : Type 0} (api : Interpreter pan L) (doc : IsDocumented api) where
  call_without_result :
      (f : LValue pan) (args : List (LValue pan)) (s : L)
      → api.depth (api.call_by_param f 0 args s).1 ≡ api.depth s
  call_without_result f args s = elim (Option-cases (api.call_by_param f 0 args s).0) [
    | inl fine ↦ omega (arith, doc.call_pushes f 0 args s fine)
    | inr (_, failed) ↦ doc.failed_call_balanced f 0 args s (λ e. cc (e, failed))
  ]

  -- `Path`: a result is pushed and popped, or the call fails
  result_taken :
      (e : Err) (s t : LuaSelector pan L)
      → (e ≡ none → api.depth t.lua ≡ api.depth s.lua + 1)
      → (e ≢ none → api.depth t.lua ≡ api.depth s.lua)
      → api.depth (path_result pan api (e, t)).1.lua ≡ api.depth s.lua
  result_taken none s t pushed same =
      omega (arith, pushed refl, doc.pop_takes 1 t.lua (omega (arith, pushed refl)))
  result_taken (some x) s t pushed same = same (λ e. cc e)

  -- `Close`: the result of a call that succeeds stays
  abbrev pub left_over : Err → ℕ
  left_over none = 1
  left_over (some _) = 0

  result_left :
      (e : Err) (before after : ℕ)
      → (e ≡ none → after ≡ before + 1)
      → (e ≢ none → after ≡ before)
      → after ≡ before + left_over e
  result_left none before after pushed same = pushed refl
  result_left (some x) before after pushed same = omega (arith, same (λ e. cc e))

  module _ (l r : pan.UdpAddr) (s : LuaSelector pan L) where
    -- The calls that want no result, and `Path`, leave the interpreter's stack as deep as it was.
    pub stack_balanced :
        (prefs : Option ConnectionPreferences) (fp : String) (pi : PathInterface pan) (seconds : ℕ)
        → (api.depth (set_preferences pan api prefs l r s).1.lua ≡ api.depth s.lua)
          × (api.depth (path pan api l r s).1.lua ≡ api.depth s.lua)
          × (api.depth (path_down pan api l r fp pi s).1.lua ≡ api.depth s.lua)
          × (api.depth (periodic pan api seconds s).lua ≡ api.depth s.lua)
    unfolding set_preferences path path_down periodic
    stack_balanced prefs fp pi seconds = (
      call_without_result _ _ s.lua,
      result_taken _ s _ (doc.call_pushes _ 1 _ s.lua) (doc.failed_call_balanced _ 1 _ s.lua),
      call_without_result _ _ s.lua,
      call_without_result _ _ s.lua,
    )

    -- `Initialize` and `Refresh` return, and leave the stack as deep as it was.
    pub renewal_balanced :
        (prefs : Option ConnectionPreferences) (ps : List (PanPath pan))
        → ((e : Err) × (s' : LuaSelector pan L) × (initialize pan api prefs l r ps s
              ≡ returns (e, s'))
            × (api.depth s'.lua ≡ api.depth s.lua))
          × ((e : Err) × (s' : LuaSelector pan L) × (refresh pan api l r ps s ≡ returns (e, s'))
              × (api.depth s'.lua ≡ api.depth s.lua))
    renewal_balanced prefs ps = (
      (
        (initialized api prefs l r ps s).0,
        (initialized api prefs l r ps s).1,
        initialize-eq api prefs l r ps s,
        call_without_result _ _ s.lua,
      ),
      (
        (refreshed api l r ps s).0,
        (refreshed api l r ps s).1,
        refresh-eq api l r ps s,
        call_without_result _ _ s.lua,
      ),
    )

    -- A `Close` that the script accepts leaves one value more on the stack.
    pub close_leaves_one :
        api.depth (close pan api l r s).1.lua ≡ api.depth s.lua + left_over (close pan api l r s).0
    unfolding close
    close_leaves_one =
        result_left _ (api.depth s.lua) _ (doc.call_pushes _ 1 _ s.lua)
          (doc.failed_call_balanced _ 1 _ s.lua)
