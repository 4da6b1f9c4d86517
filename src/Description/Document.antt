-- ===== src/Description/Document.antt =====
-- The XML document as ParseXML::parse (fast_mcpat/XML_Parse.cc) sees it: the component of the second
-- layer, which is the system, with its components and theirs. An attribute can be missing. The library
-- that reads the file has no children and no attributes for a component that is not there.
use wattwatcher.Prelude.{Option, List, String}
use wattwatcher.Description.{Item}

-- A component of the fourth layer.
pub record Part : Type 0 where
  pub name : Option String
  pub params : List Item
  pub stats : List Item

-- A component of the third layer.
pub record Component : Type 0 where
  pub id : Option String
  pub name : Option String
  pub params : List Item
  pub stats : List Item
  pub components : List Part

pub record Document : Type 0 where
  pub params : List Item
  pub stats : List Item
  pub components : List Component
