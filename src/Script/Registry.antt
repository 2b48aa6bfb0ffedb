-- ===== src/Script/Registry.antt =====
-- Filling the registry of selectors: the loops of `abi_reader`, and the sizes of an output.
use my_polkadot_orcale.Prelude.{
  ℕ, ◌+◌, ◌%◌, Bytes, List, [], ◌∷◌, ◌++◌, StoreMap, insert, bytes_eq, ◌==◌, codes, u32_mod, foldl,
  if◌then◌else◌,
}
use my_polkadot_orcale.Script.Types.{Root, Function, Class, Variable, Param, SelectorRegistry}

abbrev pub insert_function : SelectorRegistry → Function → SelectorRegistry
insert_function r f = record r { functions = insert f.selector f r.functions }

-- The schema of a class is kept by its name, its methods by their selectors.
abbrev pub insert_class : SelectorRegistry → Class → SelectorRegistry
insert_class r k =
    foldl insert_function (record r { classes_schema = insert k.name k.fields r.classes_schema })
      k.methods

abbrev pub insert_variable : SelectorRegistry → Variable → SelectorRegistry
insert_variable r v = record r { variables = insert v.selector v r.variables }

abbrev pub empty_registry : Bytes → SelectorRegistry
empty_registry origin = record {
  origin = origin;
  functions = [];
  variables = [];
  classes_schema = [];
}

unfoldable pub fill_registry : Root → SelectorRegistry
fill_registry root =
    foldl insert_variable
      (foldl insert_class
        (foldl insert_function (empty_registry root.headers.header) root.functions) root.classes)
      root.variables

-- `cal_output_size`: the size of a field, which is not the one that the output is read with.
abbrev pub field_size : Bytes → ℕ
field_size t = if t == codes "f32" then 8 else if t == codes "f64" then 8 else 4

abbrev pub add_field : List ℕ × ℕ → Param → List ℕ × ℕ
add_field (sizes, total) p =
    (sizes ++ field_size p.param_type ∷ [], (total + field_size p.param_type) % u32_mod)

-- The total, an `i32`, is given by its bits. The map is walked in some order; its one entry
-- `Output` counts.
unfoldable pub cal_output_size : StoreMap Bytes (List Param) → List ℕ × ℕ
cal_output_size schema =
    foldl (λ acc entry. if entry.0 == codes "Output" then foldl add_field acc entry.1 else acc)
      ([], 0) schema
