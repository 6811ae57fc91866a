-- ===== src/Router/Array.antt =====
-- The array of routes: `find_array_route` of src/uvhttp_router.c.
pub mod Search
use uvhttp.Prelude.{
  ℕ, Bool, true, false, ◌&&◌, ◌||◌, List, [], ◌∷◌, Option, none, some, if◌then◌else◌, streq,
}
use uvhttp.Router.Method.{Method, any, method_eq}

-- A request handler, by the function that it is: one of the application's, by number, or one of
-- the two static functions of the file.
pub data Handler : Type 0 where
  application : ℕ → Handler
  static_file_handler_wrapper : Handler
  binary_route_handler : Handler

-- `array_route_t`
pub record ArrayRoute : Type 0 where
  pub path : List ℕ
  pub method : Method
  pub handler : Handler

abbrev pub allows : Method → Method → Bool
allows registered method = method_eq registered method || method_eq registered any

abbrev pub is_hit : ArrayRoute → List ℕ → Method → Bool
is_hit route path method = allows route.method method && streq route.path path

-- `find_array_route`: the loop over the routes in the order of their registration.
unfoldable pub find_array_route : List ArrayRoute → List ℕ → Method → Option Handler
find_array_route [] path method = none
find_array_route (route ∷ routes) path method =
    let later = find_array_route routes path method in
    if is_hit route path method then some route.handler else later
