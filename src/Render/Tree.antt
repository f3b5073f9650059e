-- ===== src/Render/Tree.antt =====
-- The html.Node trees of golang.org/x/net/html that templates/render.go walks: a constructor for
-- each node type, with what the renderer reads of a node.
use kweb.Base.{List, Text}

pub record Attribute : Type 0 where
  pub namespace : Text
  pub key : Text
  pub val : Text

mutual
  pub data Node : Type 0 where
    error_node : Node
    text_node : Text → Node
    document_node : Nodes → Node
    element_node : Text → List Attribute → Nodes → Node
    comment_node : Text → Node
    doctype_node : Text → List Attribute → Node
    raw_node : Text → Node
    unknown_node : Node

  -- The children of a node, from FirstChild on.
  pub data Nodes : Type 0 where
    no_nodes : Nodes
    more_nodes : Node → Nodes → Nodes
