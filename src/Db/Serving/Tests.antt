-- ===== src/Db/Serving/Tests.antt =====
-- Tests and a witness for the lives of databases on a node that asks for no secret.
use jaydb.Base.{
  ◌≡◌, refl, List, [], ◌∷◌, Bytes, true, false, none, some, codes, str_eq, lookup, insert, erase,
}
use jaydb.Cluster.Mesh.{handler_for, serve, register_handler, unregister_handler}
use jaydb.Cluster.Mesh.Tests.{formats, one_value, query, age}
use jaydb.Cluster.Start.{close_node, new_node, port_from_addr, start_gossip, open_mesh}
use jaydb.Cluster.Start.Tests.{net, started}
use jaydb.Db.Serving.{Host, Life, opened, closed, open_on, close_on, run_lives}
use jaydb.Db.Serving.Closed.{answered, run_lives-served}

abbrev host : Host Bytes
host = record {
  serves = record { cluster_secret = []; db_handler = none; handlers = [] };
  runs = (started (codes "h")).1;
}

abbrev others : List (Life Bytes)
others = opened (codes "users") one_value ∷ closed (codes "users") [] ∷ []

program : Unit {0}
unfolding new_node port_from_addr start_gossip open_mesh handler_for register_handler
    unregister_handler open_on close_on run_lives close_node str_eq lookup insert erase
program = tt

run_lives-served_example :
    (serve formats
        (run_lives net others (open_on query.namespace one_value host)).serves
        age
        query
        []
      ≡ answered net formats [] age (some one_value) query [])
    × (serve formats
          (run_lives net others (close_on net query.namespace [] host)).serves
          age
          query
          []
        ≡ answered net formats [] age none query [])
unfolding program
run_lives-served_example =
    run_lives-served net formats host one_value [] others age query [] refl (refl, (refl, tt))

-- A database is closed, and the handler of old takes the requests of its namespace.
legacy : Host Bytes
legacy = record host {
  serves = record { cluster_secret = []; db_handler = some one_value; handlers = [] };
}

to_legacy :
    handler_for
      (codes "orders")
      (close_on net (codes "orders") [] (open_on (codes "orders") one_value legacy)).serves
    ≡ some one_value
unfolding program legacy
to_legacy = refl

-- Two databases are opened under one namespace, and the first is closed: the second is not served.
reopened : List (Life Bytes)
reopened =
    opened (codes "orders") one_value
    ∷ opened (codes "orders") one_value
    ∷ closed (codes "orders") []
    ∷ []

unserved : handler_for (codes "orders") (run_lives net reopened host).serves ≡ none
unfolding program reopened
unserved = refl

-- A database of a namespace leaves the node running, and one of none closes it.
node_stays : (close_on net (codes "orders") [] host).runs.listening ≡ true
unfolding program
node_stays = refl

node_closes : (close_on net [] [] host).runs.listening ≡ false
unfolding program
node_closes = refl
