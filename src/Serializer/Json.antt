-- ===== src/Serializer/Json.antt =====
-- nlohmann::json, as far as the serializer builds it. An object is a std::map, in ascending order of
-- its keys. The numbers are of three kinds: uint64_t, int64_t and double.
use kvadra_top.Base.{ℕ, List, [], ◌∷◌, if◌then◌else◌}
use kvadra_top.Text.{Bytes, ℤ}
use kvadra_top.Map.Keys.{bytes_less}

module _ (R : Type 0) where
  mutual
    pub data Json : Type 0 where
      unsigned : ℕ → Json
      signed : ℤ → Json
      real : R → Json
      text : Bytes → Json
      array : Items → Json
      object : Fields → Json

    pub data Items : Type 0 where
      nil : Items
      cons : Json → Items → Items

    pub data Fields : Type 0 where
      end : Fields
      field : Bytes → Json → Fields → Fields

module _ {R : Type 0} where
  -- `j[key] = value`.
  unfoldable pub set : Bytes → Json R → Fields R → Fields R
  unfolding bytes_less
  set k v end = field k v end
  set k v (field j w rest) =
      if bytes_less k j
      then field k v (field j w rest)
      else if bytes_less j k
      then field j w (set k v rest)
      else field j v rest

  unfoldable pub set_all : List (Bytes × Json R) → Fields R → Fields R
  unfolding set
  set_all [] m = m
  set_all ((k, v) ∷ rest) m = set_all rest (set k v m)

  -- An object that is built of assignments, or of a list of pairs.
  unfoldable pub object_of : List (Bytes × Json R) → Json R
  unfolding set_all
  object_of fields = object (set_all fields end)

  unfoldable pub items_of : List (Json R) → Items R
  items_of [] = nil
  items_of (j ∷ rest) = cons j (items_of rest)

  -- `json::array()`, and `push_back` of each.
  unfoldable pub array_of : List (Json R) → Json R
  unfolding items_of
  array_of items = array (items_of items)
